-- ===== src/Tcp/Counting.antt =====
-- Counting the frames sent and the connections asked for: the rules of the monad.
use ditto_client.Prelude.{
  ℕ, suc, ◌+◌, ◌≤◌, Option, none, some, Bool, true, false, List, [], ◌∷◌, arith, if◌then◌else◌,
}
use ditto_client.Python.Text.{Bytes}
use ditto_client.Python.Errors.{Result, ok, err, Exn}
use ditto_client.Tcp.Monad.{
  Call, Action, connecting, loading, wrapping, closing, sending, receiving, State, Op, raise, lift,
  perform, get_sock, put_sock, ◌>>=◌, try_except, raise_when,
}

-- The frames that were sent, and the connections that were asked for.
abbrev pub sends : List Action → ℕ
sends [] = 0
sends (sending frame ∷ trace) = suc (sends trace)
sends (_ ∷ trace) = sends trace

abbrev pub connects : List Action → ℕ
connects [] = 0
connects (connecting ∷ trace) = suc (connects trace)
connects (_ ∷ trace) = connects trace

-- A state whose trace has at most `n` more frames and `k` more connections than `trace`.
abbrev pub Within : {W : Type 0} → ℕ → ℕ → List Action → State W → Type 0
Within n k trace s = (sends s.trace ≤ n + sends trace) × (connects s.trace ≤ k + connects trace)

-- From every state, the operation sends at most `n` frames and asks for at most `k` connections.
pub record AtMost {W A : Type 0} (n k : ℕ) (m : Op W A) : Type 0 where
  pub within : (s : State W) → Within n k s.trace (m s).1

module _ {W A B : Type 0} where
  bind-Within :
      (n k n' k' : ℕ) (trace : List Action) (x : Result A × State W) (f : A → Op W B)
      → Within n k trace x.1
      → ((a : A) → AtMost n' k' (f a))
      → Within
          (n + n')
          (k + k')
          trace
          (elim x.0 as (λ _. Result B × State W) [ ok a ↦ f a x.1 | err e ↦ (err e, x.1) ]).1
  bind-Within n k n' k' trace (ok a, s) f p q =
      let h = (q a).within s in (omega (arith, p.0, h.0), omega (arith, p.1, h.1))
  bind-Within n k n' k' trace (err e, s) f p q = (omega (arith, p.0), omega (arith, p.1))

  pub AtMost->>= :
      (n k n' k' : ℕ) (m : Op W A) (f : A → Op W B)
      → AtMost n k m
      → ((a : A) → AtMost n' k' (f a))
      → AtMost (n + n') (k + k') (m >>= f)
  AtMost->>= n k n' k' m f p q = record {
    within = λ s. bind-Within n k n' k' s.trace (m s) f (p.within s) q;
  }

  -- Before or behind an operation that counts nothing.
  pub AtMost-after :
      (n k : ℕ) (m : Op W A) (f : A → Op W B)
      → AtMost 0 0 m
      → ((a : A) → AtMost n k (f a))
      → AtMost n k (m >>= f)
  AtMost-after n k m f p q = record {
    within = λ s.
        let h = (AtMost->>= 0 0 n k m f p q).within s in (omega (arith, h.0), omega (arith, h.1));
  }

  pub AtMost-before :
      (n k : ℕ) (m : Op W A) (f : A → Op W B)
      → AtMost n k m
      → ((a : A) → AtMost 0 0 (f a))
      → AtMost n k (m >>= f)
  AtMost-before n k m f p q = record {
    within = λ s.
        let h = (AtMost->>= n k 0 0 m f p q).within s in (omega (arith, h.0), omega (arith, h.1));
  }

module _ {W A : Type 0} where
  except-Within :
      (n k n' k' : ℕ) (trace : List Action) (x : Result A × State W) (handler : Exn → Op W A)
      → Within n k trace x.1
      → ((e : Exn) → AtMost n' k' (handler e))
      → Within
          (n + n')
          (k + k')
          trace
          (elim x.0 as (λ _. Result A × State W) [ ok a ↦ (ok a, x.1) | err e ↦ handler e x.1 ]).1
  except-Within n k n' k' trace (ok a, s) f p q = (omega (arith, p.0), omega (arith, p.1))
  except-Within n k n' k' trace (err e, s) f p q =
      let h = (q e).within s in (omega (arith, p.0, h.0), omega (arith, p.1, h.1))

  pub AtMost-try_except :
      (n k n' k' : ℕ) (m : Op W A) (handler : Exn → Op W A)
      → AtMost n k m
      → ((e : Exn) → AtMost n' k' (handler e))
      → AtMost (n + n') (k + k') (try_except m handler)
  AtMost-try_except n k n' k' m f p q = record {
    within = λ s. except-Within n k n' k' s.trace (m s) f (p.within s) q;
  }

  pub AtMost-lift : (n k : ℕ) (r : Result A) → AtMost {W = W} n k (lift r)
  AtMost-lift n k r = record { within = λ s. (omega arith, omega arith) }

  pub AtMost-raise : (n k : ℕ) (e : Exn) → AtMost {W = W} {A = A} n k (raise e)
  AtMost-raise n k e = record { within = λ s. (omega arith, omega arith) }

  pub AtMost-sending :
      (k : ℕ) (frame : Bytes) (f : W → Call A × W) → AtMost 1 k (perform (sending frame) f)
  AtMost-sending k frame f = record { within = λ s. (omega arith, omega arith) }

  pub AtMost-connecting : (n : ℕ) (f : W → Call A × W) → AtMost n 1 (perform connecting f)
  AtMost-connecting n f = record { within = λ s. (omega arith, omega arith) }

  pub AtMost-receiving :
      (n k sock : ℕ) (f : W → Call A × W) → AtMost n k (perform (receiving sock) f)
  AtMost-receiving n k sock f = record { within = λ s. (omega arith, omega arith) }

  pub AtMost-closing : (n k : ℕ) (f : W → Call A × W) → AtMost n k (perform closing f)
  AtMost-closing n k f = record { within = λ s. (omega arith, omega arith) }

  pub AtMost-loading : (n k : ℕ) (f : W → Call A × W) → AtMost n k (perform loading f)
  AtMost-loading n k f = record { within = λ s. (omega arith, omega arith) }

  pub AtMost-wrapping : (n k : ℕ) (f : W → Call A × W) → AtMost n k (perform wrapping f)
  AtMost-wrapping n k f = record { within = λ s. (omega arith, omega arith) }

module _ {W : Type 0} where
  pub AtMost-get_sock : (n k : ℕ) → AtMost {W = W} n k get_sock
  AtMost-get_sock n k = record { within = λ s. (omega arith, omega arith) }

  pub AtMost-put_sock : (n k : ℕ) (sock : Option ℕ) → AtMost {W = W} n k (put_sock sock)
  AtMost-put_sock n k sock = record { within = λ s. (omega arith, omega arith) }

  pub AtMost-raise_when : (n k : ℕ) (test : Bool) (e : Exn) → AtMost {W = W} n k (raise_when test e)
  AtMost-raise_when n k true e = record { within = λ s. (omega arith, omega arith) }
  AtMost-raise_when n k false e = record { within = λ s. (omega arith, omega arith) }

module _ {W A : Type 0} where
  pub AtMost-bool :
      (n k : ℕ) (test : Bool) (x y : Op W A)
      → AtMost n k x
      → AtMost n k y
      → AtMost n k (elim test as (λ _. Op W A) [ true ↦ x | false ↦ y ])
  AtMost-bool n k true x y p q = p
  AtMost-bool n k false x y p q = q

  pub AtMost-option :
      {B : Type 0} (n k : ℕ) (o : Option B) (x : Op W A) (y : B → Op W A)
      → AtMost n k x
      → ((b : B) → AtMost n k (y b))
      → AtMost n k (elim o as (λ _. Op W A) [ none ↦ x | some b ↦ y b ])
  AtMost-option n k none x y p q = p
  AtMost-option n k (some b) x y p q = q b

  pub AtMost-if :
      (n k : ℕ) (test : Bool) (x y : Op W A)
      → AtMost n k x
      → AtMost n k y
      → AtMost n k (if test then x else y)
  AtMost-if n k true x y p q = p
  AtMost-if n k false x y p q = q
