-- ===== src/Tcp/Loss.antt =====
-- A lost connection: what `_send` raises, and what `_close_locked` leaves behind.
use ditto_client.Prelude.{
  ℕ, ◌≡◌, refl, sym, ap, ◌∙◌, Option, none, some, true, false, if◌then◌else◌,
}
use ditto_client.Python.Text.{Bytes}
use ditto_client.Python.Errors.{Result, Exn, ok, err, is_os_error, not_connected, outcome_unknown}
use ditto_client.Wire.Response.{ClientResponse}
use ditto_client.Tcp.Monad.{
  Net, State, Op, perform, closing, put_sock, ◌>>◌, raise, pure, try_except, >>=-ok,
}
use ditto_client.Tcp.Connection.{Config, is_harmless, close_locked, exchange, after_loss, send}

module _ {W : Type 0} where
  -- A block that returned ran its first statement, and then the rest.
  block-ok :
      {A B : Type 0} (x : Result A × State W) (f : A → Op W B) {b : B}
      → (elim x.0 as (λ _. Result B × State W) [ ok a ↦ f a x.1 | err e ↦ (err e, x.1) ]).0 ≡ ok b
      → (a : A) × (x ≡ (ok a, x.1))
  block-ok (ok a, s) f h = (a, refl)
  block-ok (err e, s) f h = cc

module _ {W : Type 0} (net : Net W) (config : Config) where
  -- Closing that returns leaves the client without a connection.
  pub close_locked-disconnects :
      (s : State W)
      → (close_locked net config s).0 ≡ ok tt
      → (close_locked net config s).1.sock ≡ none
  unfolding close_locked
  close_locked-disconnects s h = go s.sock h refl
    where
      leave : ℕ → Op W Unit
      leave n = do perform closing (net.close n); put_sock none

      shut : ℕ → Op W Unit
      shut n =
          try_except (perform closing (net.shutdown n))
            (λ exc. if is_harmless exc then pure tt else raise exc)

      go :
          (o : Option ℕ)
          → ((elim o as (λ _. Op W Unit) [ none ↦ pure tt | some n ↦ shut n >> leave n ]) s).0
            ≡ ok tt
          → o ≡ s.sock
          → ((elim o as (λ _. Op W Unit) [ none ↦ pure tt | some n ↦ shut n >> leave n ]) s).1.sock
            ≡ none
      go none r e = sym e
      go (some n) r e =
          let (u, first) = block-ok (shut n s) (λ _. leave n) r in
          let ran = >>=-ok (shut n) (λ _. leave n) first in
          let (v, second) =
            block-ok (perform closing (net.close n) (shut n s).1) (λ _. put_sock none)
              (sym (ap (λ x. x.0) ran) ∙ r) in
          ap (λ x. x.1.sock)
            (ran ∙ >>=-ok (perform closing (net.close n)) (λ _. put_sock none) second)

  refused :
      (frame : Bytes) (e : Exn) (s' : State W)
      → is_os_error e ≡ true
      → (close_locked net config s').0 ≡ ok tt
      → after_loss net config frame false e s'
        ≡ (err outcome_unknown, (close_locked net config s').1)
  unfolding after_loss
  refused frame e s' lost closed =
      rw (after_loss, lost)
        (>>=-ok (close_locked net config) (λ _. raise outcome_unknown)
          (ap (λ r. (r, (close_locked net config s').1)) closed))

  -- Connected, if a request that is not safe to repeat fails with an OSError, and closing the connection
  -- then returns, `_send` raises that the outcome is unknown, and the client is not connected any more.
  pub send-loss :
      (n : ℕ) (frame : Bytes) (e : Exn) (s : State W)
      → s.sock ≡ some n
      → (exchange net config n frame s).0 ≡ err e
      → is_os_error e ≡ true
      → (close_locked net config (exchange net config n frame s).1).0 ≡ ok tt
      → ((send net config frame false s).0 ≡ err outcome_unknown)
        × ((send net config frame false s).1.sock ≡ none)
  unfolding send
  send-loss n frame e s connected failed lost closed =
      let s' = (exchange net config n frame s).1 in
      let s'' = (close_locked net config s').1 in
      let run : send net config frame false s ≡ (err outcome_unknown, s'') =
        ap
          (λ o.
            (elim o as (λ _. Op W ClientResponse) [
              | none ↦ raise not_connected
              | some n ↦
                  try_except (exchange net config n frame) (after_loss net config frame false)
            ])
              s)
          connected
        ∙ ap
            (λ r. elim r as (λ _. Result ClientResponse × State W) [
              | ok a ↦ (ok a, s')
              | err e ↦ after_loss net config frame false e s'
            ])
            failed
        ∙ refused frame e s' lost closed in
      rw run (refl, close_locked-disconnects s' closed)
