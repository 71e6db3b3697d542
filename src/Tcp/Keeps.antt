-- ===== src/Tcp/Keeps.antt =====
-- What receiving a response leaves alone: every property of the world that `recv` keeps.
use ditto_client.Prelude.{
  ℕ, zero, suc, ◌-◌, Option, none, some, Bool, true, false, [], ltb, is_empty, if◌then◌else◌,
  length, ◌++◌,
}
use ditto_client.Python.Text.{Bytes}
use ditto_client.Python.Errors.{
  Result, ok, err, Exn, out_of_fuel, closed_by_server, assertion_failed, frame_too_large,
}
use ditto_client.Wire.Decode.{decode_response}
use ditto_client.Tcp.Monad.{
  Net, State, Op, receiving, perform, raise, pure, lift, get_sock, raise_when, ◌>>=◌,
}
use ditto_client.Tcp.Connection.{Config, unpack_u32, the_socket, recvn_loop, recvn, receive}

-- The operation leads from a world with `P` to a world with `P`, whether it returns or raises.
pub record Keeps {W A : Type 0} (P : W → Type 0) (m : Op W A) : Type 0 where
  pub keeps : (s : State W) → P s.world → P (m s).1.world

module _ {W A B : Type 0} (P : W → Type 0) where
  behind :
      (x : Result A × State W) (f : A → Op W B)
      → P x.1.world
      → ((a : A) → Keeps P (f a))
      → P (elim x.0 as (λ _. Result B × State W) [ ok a ↦ f a x.1 | err e ↦ (err e, x.1) ]).1.world
  behind (ok a, s) f p q = (q a).keeps s p
  behind (err e, s) f p q = p

  Keeps->>= :
      (m : Op W A) (f : A → Op W B) → Keeps P m → ((a : A) → Keeps P (f a)) → Keeps P (m >>= f)
  Keeps->>= m f p q = record { keeps = λ s h. behind (m s) f (p.keeps s h) q }

module _ {W A : Type 0} (P : W → Type 0) where
  Keeps-lift : (r : Result A) → Keeps P (lift r)
  Keeps-lift r = record { keeps = λ s h. h }

  Keeps-bool :
      (test : Bool) (x y : Op W A)
      → Keeps P x
      → Keeps P y
      → Keeps P (elim test as (λ _. Op W A) [ true ↦ x | false ↦ y ])
  Keeps-bool true x y p q = p
  Keeps-bool false x y p q = q

  Keeps-if : (test : Bool) (x y : Op W A) → Keeps P x → Keeps P y → Keeps P (if test then x else y)
  Keeps-if true x y p q = p
  Keeps-if false x y p q = q

  Keeps-option :
      {B : Type 0} (o : Option B) (x : Op W A) (f : B → Op W A)
      → Keeps P x
      → ((b : B) → Keeps P (f b))
      → Keeps P (elim o as (λ _. Op W A) [ none ↦ x | some b ↦ f b ])
  Keeps-option none x f p q = p
  Keeps-option (some b) x f p q = q b

module _ {W : Type 0} (P : W → Type 0) where
  Keeps-raise_when : (test : Bool) (e : Exn) → Keeps P (raise_when test e)
  Keeps-raise_when true e = record { keeps = λ s h. h }
  Keeps-raise_when false e = record { keeps = λ s h. h }

module _ {W : Type 0} (P : W → Type 0) (net : Net W) (config : Config)
    (kept : (sock n : ℕ) (w : W) → P w → P (net.recv sock n w).1) where
  Keeps-receiving : (sock n : ℕ) → Keeps P (perform (receiving sock) (net.recv sock n))
  Keeps-receiving sock n = record { keeps = λ s h. kept sock n s.world h }

  recvn_loop-Keeps :
      (sock n fuel : ℕ) (bytes : Bytes) → Keeps P (recvn_loop net config sock n fuel bytes)
  unfolding recvn_loop
  recvn_loop-Keeps sock n zero bytes =
      Keeps-if P (ltb (length bytes) n) _ _ (Keeps-lift P (err out_of_fuel))
        (Keeps-lift P (ok bytes))
  recvn_loop-Keeps sock n (suc fuel) bytes =
      Keeps-bool P (ltb (length bytes) n) _ _
        (Keeps->>= P (perform (receiving sock) (net.recv sock (n - length bytes))) _
          (Keeps-receiving sock (n - length bytes))
          (λ chunk.
            Keeps-bool P (is_empty chunk) _ _ (Keeps-lift P (err closed_by_server))
              (recvn_loop-Keeps sock n fuel (bytes ++ chunk))))
        (Keeps-lift P (ok bytes))

  the_socket-Keeps : Keeps P (the_socket net config)
  unfolding the_socket
  the_socket-Keeps =
      Keeps->>= P get_sock _ (record { keeps = λ s h. h })
        (λ sock.
          Keeps-option P sock (raise assertion_failed) pure (Keeps-lift P (err assertion_failed))
            (λ n. Keeps-lift P (ok n)))

  recvn-Keeps : (n : ℕ) → Keeps P (recvn net config n)
  unfolding recvn
  recvn-Keeps n =
      Keeps->>= P (the_socket net config) _ the_socket-Keeps (λ sock. recvn_loop-Keeps sock n n [])

  pub receive-Keeps : Keeps P (receive net config)
  unfolding receive
  receive-Keeps = Keeps->>= P (recvn net config 4) _ (recvn-Keeps 4) (λ header.
      Keeps->>= P (lift (unpack_u32 header)) _ (Keeps-lift P (unpack_u32 header)) (λ payload_len.
        Keeps->>= P
          (raise_when (ltb config.max_frame_bytes payload_len)
            (frame_too_large payload_len config.max_frame_bytes))
          _
          (Keeps-raise_when P (ltb config.max_frame_bytes payload_len)
            (frame_too_large payload_len config.max_frame_bytes))
          (λ _.
            Keeps->>= P (recvn net config payload_len) _ (recvn-Keeps payload_len)
              (λ payload. Keeps-lift P (decode_response payload)))))
