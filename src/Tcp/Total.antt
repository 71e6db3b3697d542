-- ===== src/Tcp/Total.antt =====
-- The loop of `_recvn` ends, and so does `_recv`, whatever the network returns.
use ditto_client.Prelude.{
  ℕ, zero, suc, ◌+◌, ◌-◌, ◌≤◌, ◌≡◌, Option, none, some, Bool, true, false, [], ◌∷◌, ◌++◌, arith,
  ltb, length, is_empty, length-append,
}
use ditto_client.Python.Text.{Bytes}
use ditto_client.Python.Errors.{
  Result, ok, err, Ends, Raises, out_of_fuel, index_error, assertion_failed, closed_by_server,
  frame_too_large,
}
use ditto_client.Wire.Decode.{decode_response}
use ditto_client.Wire.Total.{decode_response-Raises}
use ditto_client.Wire.Total.Moves.{IsOwn}
use ditto_client.Tcp.Monad.{
  Net, Call, done, failed, Action, State, Op, pure, from_call, raise, lift, perform, receiving,
  get_sock, ◌>>=◌, raise_when,
}
use ditto_client.Tcp.Connection.{Config, the_socket, recvn_loop, recvn, receive, unpack_u32}

module _ {W : Type 0} where
  -- From every state the operation ends.
  pub record Ending {A : Type 0} (m : Op W A) : Type 0 where
    pub ends : (s : State W) → Ends (m s).0

  Ending->>= :
      {A B : Type 0} (m : Op W A) (f : A → Op W B)
      → Ending m
      → ((a : A) → Ending (f a))
      → Ending (m >>= f)
  Ending->>= {A} {B} m f p q = record { ends = λ s. go (m s) (p.ends s) }
    where
      go :
          (x : Result A × State W)
          → Ends x.0
          → Ends (elim x.0 as (λ _. Result B × State W) [ ok a ↦ f a x.1 | err e ↦ (err e, x.1) ]).0
      go (ok a, s) h = (q a).ends s
      go (err e, s) h = h

  Ending-lift : {A : Type 0} (r : Result A) → Ends r → Ending (lift r)
  Ending-lift r h = record { ends = λ s. h }

  Ending-perform : {A : Type 0} (action : Action) (f : W → Call A × W) → Ending (perform action f)
  Ending-perform {A} action f = record { ends = λ s. go (f s.world).0 }
    where
      go : (c : Call A) → Ends (from_call c)
      go (done a) = tt
      go (failed e) = tt

  Ending-bool :
      {A : Type 0} (test : Bool) (x y : Op W A)
      → Ending x
      → Ending y
      → Ending (elim test as (λ _. Op W A) [ true ↦ x | false ↦ y ])
  Ending-bool true x y p q = p
  Ending-bool false x y p q = q

-- None of the exceptions of `decode_response` is excluded by `Ends`.
own-Ends : {A : Type 0} (r : Result A) → Raises IsOwn r → Ends r
own-Ends (ok a) h = tt
own-Ends (err out_of_fuel) h = h
own-Ends (err index_error) h = h
own-Ends (err _) h = tt

module _ {W : Type 0} (net : Net W) (config : Config) where
  the_socket-Ending : Ending (the_socket net config)
  unfolding the_socket
  the_socket-Ending = Ending->>= get_sock _ (record { ends = λ s. tt }) connected
    where
      connected :
          (o : Option ℕ)
          → Ending (elim o as (λ _. Op W ℕ) [ none ↦ raise assertion_failed | some n ↦ pure n ])
      connected none = record { ends = λ s. tt }
      connected (some n) = record { ends = λ s. tt }

  -- With as many rounds left as bytes, the loop does not run out of them.
  recvn_loop-Ending :
      (sock n fuel : ℕ) (bytes : Bytes)
      → n ≤ length bytes + fuel
      → Ending (recvn_loop net config sock n fuel bytes)
  unfolding recvn_loop
  recvn_loop-Ending sock n zero bytes h = rw enough (record { ends = λ s. tt })
    where
      enough : ltb (length bytes) n ≡ false
      enough = ground arith
  recvn_loop-Ending sock n (suc fuel) bytes h =
      Ending-bool (ltb (length bytes) n) _ (pure bytes)
        (Ending->>= (perform (receiving sock) (net.recv sock (n - length bytes))) _
          (Ending-perform (receiving sock) (net.recv sock (n - length bytes)))
          (next fuel (recvn_loop-Ending sock n fuel) h))
        (record { ends = λ s. tt })
    where
      next :
          (fuel : ℕ)
          → ((bytes : Bytes)
              → n ≤ length bytes + fuel
              → Ending (recvn_loop net config sock n fuel bytes))
          → n ≤ length bytes + suc fuel
          → (chunk : Bytes)
          → Ending (elim (is_empty chunk) as (λ _. Op W Bytes) [
            | true ↦ raise closed_by_server
            | false ↦ recvn_loop net config sock n fuel (bytes ++ chunk)
          ])
      next fuel ih h [] = record { ends = λ s. tt }
      next fuel ih h (c ∷ chunk) =
          ih (bytes ++ c ∷ chunk) (omega (arith, length-append bytes (c ∷ chunk)))

  recvn-Ending : (n : ℕ) → Ending (recvn net config n)
  unfolding recvn
  recvn-Ending n =
      Ending->>= (the_socket net config) (λ sock. recvn_loop net config sock n n [])
        the_socket-Ending λ sock. recvn_loop-Ending sock n n [] (omega arith)

  unpack_u32-Ends : (header : Bytes) → Ends (unpack_u32 header)
  unfolding unpack_u32
  unpack_u32-Ends [] = tt
  unpack_u32-Ends (a ∷ []) = tt
  unpack_u32-Ends (a ∷ b ∷ []) = tt
  unpack_u32-Ends (a ∷ b ∷ c ∷ []) = tt
  unpack_u32-Ends (a ∷ b ∷ c ∷ d ∷ []) = tt
  unpack_u32-Ends (a ∷ b ∷ c ∷ d ∷ e ∷ rest) = tt

  raise_when-Ending :
      (test : Bool) (n m : ℕ) → Ending {W = W} (raise_when test (frame_too_large n m))
  raise_when-Ending true n m = record { ends = λ s. tt }
  raise_when-Ending false n m = record { ends = λ s. tt }

  -- Whatever the network returns, `_recv` reads its frame and decodes it in finitely many rounds: it
  -- returns a response or raises a Python exception, and no index of it is out of range.
  pub receive-Ends : (s : State W) → Ends (receive net config s).0
  unfolding receive
  receive-Ends s =
      (Ending->>= (recvn net config 4) _ (recvn-Ending 4) λ header.
          Ending->>= (lift (unpack_u32 header)) _
            (Ending-lift (unpack_u32 header) (unpack_u32-Ends header))
            λ n.
              Ending->>=
                (raise_when (ltb config.max_frame_bytes n)
                  (frame_too_large n config.max_frame_bytes))
                _ (raise_when-Ending (ltb config.max_frame_bytes n) n config.max_frame_bytes)
                λ u. Ending->>= (recvn net config n) _ (recvn-Ending n) λ payload.
                  Ending-lift (decode_response payload)
                    (own-Ends (decode_response payload) (decode_response-Raises payload))).ends
        s
