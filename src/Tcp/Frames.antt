-- ===== src/Tcp/Frames.antt =====
-- Reading frames from a byte stream: whatever the sizes of the chunks that `recv` returns, `_recvn`
-- and `_recv` take exactly the bytes of their part.
use ditto_client.Prelude.{
  ℕ, zero, suc, ◌+◌, ◌-◌, ◌^◌, ◌≤◌, ◌<◌, ◌≡◌, refl, sym, ap, ◌∙◌, none, some, true, false, [], ◌∷◌,
  ◌++◌, arith, ltb, length, is_empty, Bool-cases, inl, inr, append_assoc, length-append, take, drop,
  take-length-append, drop-length-append,
}
use ditto_client.Python.Text.{Bytes}
use ditto_client.Python.Errors.{ok-injective, Result, ok, assertion_failed, frame_too_large}
use ditto_client.Wire.Encode.{pack_u32}
use ditto_client.Wire.Decode.{decode_response}
use ditto_client.Tcp.Monad.{
  Net, done, State, Op, perform, receiving, ◌>>=◌, raise, pure, lift, raise_when, ◌>>◌, >>=-ok,
  raise_when-false,
}
use ditto_client.Tcp.Connection.{Config, unpack_u32, the_socket, recvn_loop, recvn, receive}

-- `struct.unpack(">I", …)` reads back what `struct.pack(">I", n)` wrote, which is four bytes.
pub unpack_u32-pack_u32 :
    (n : ℕ) (header : Bytes)
    → pack_u32 n ≡ ok header
    → (unpack_u32 header ≡ ok n) × (length header ≡ 4)
unfolding pack_u32 unpack_u32
unpack_u32-pack_u32 n header h = elim (Bool-cases (ltb n (2 ^ 32))) [
  | inl fits ↦ let e = ok-injective (rw fits at h) in rw (sym e) (ap ok (omega arith), refl)
  | inr large ↦ ground arith
]

-- A stream of bytes behind `recv`: asked for one byte or more while bytes are pending, it returns the
-- next of them, at least one and at most as many as it was asked for.
abbrev pub IsStream : {W : Type 0} → Net W → (W → Bytes) → Type 0
IsStream {W} net pending =
    (sock n : ℕ) (w : W)
    → 0 < n
    → 0 < length (pending w)
    → (chunk : Bytes) × ((net.recv sock n w).0 ≡ done chunk)
      × (pending w ≡ chunk ++ pending (net.recv sock n w).1)
      × (0 < length chunk)
      × (length chunk ≤ n)

module _ {W : Type 0} (net : Net W) (config : Config) (pending : W → Bytes)
    (stream : IsStream net pending) where
  -- A run that returned `bytes` of the pending ones, and left the rest and the connection as they are.
  abbrev Took : Bytes → Bytes → State W → Result Bytes × State W → Type 0
  Took bytes rest s (r, s') = (r ≡ ok bytes) × (pending s'.world ≡ rest) × (s'.sock ≡ s.sock)

  loop-full :
      (sock n fuel : ℕ) (bytes : Bytes) (s : State W)
      → ltb (length bytes) n ≡ false
      → recvn_loop net config sock n fuel bytes s ≡ (ok bytes, s)
  unfolding recvn_loop
  loop-full sock n zero bytes s h = rw (recvn_loop, h)
  loop-full sock n (suc fuel) bytes s h = rw (recvn_loop, h)

  -- The state after a `recv` in state `s`.
  abbrev received : ℕ → ℕ → State W → State W
  received sock n s = record {
    sock = s.sock;
    trace = receiving sock ∷ s.trace;
    world = (net.recv sock n s.world).1;
  }

  loop-chunk :
      (sock n fuel : ℕ) (bytes chunk : Bytes) (s : State W)
      → ltb (length bytes) n ≡ true
      → (net.recv sock (n - length bytes) s.world).0 ≡ done chunk
      → is_empty chunk ≡ false
      → recvn_loop net config sock n (suc fuel) bytes s
        ≡ recvn_loop net config sock n fuel (bytes ++ chunk) (received sock (n - length bytes) s)
  unfolding recvn_loop
  loop-chunk sock n fuel bytes chunk s h e f = rw (recvn_loop, ◌>>=◌, perform, h, e, f)

  take-full :
      (n : ℕ) (xs ys : Bytes) → length xs ≡ n → (take n (xs ++ ys) ≡ xs) × (drop n (xs ++ ys) ≡ ys)
  take-full n xs ys h = rw (sym h) (take-length-append xs ys, drop-length-append xs ys)

  is_empty-length : (xs : Bytes) → 0 < length xs → is_empty xs ≡ false
  is_empty-length [] h = ground arith
  is_empty-length (x ∷ xs) h = refl

  full-stream :
      (sock n fuel : ℕ) (bytes : Bytes) (s : State W)
      → length bytes ≡ n
      → Took
          (take n (bytes ++ pending s.world))
          (drop n (bytes ++ pending s.world))
          s
          (recvn_loop net config sock n fuel bytes s)
  full-stream sock n fuel bytes s h =
      let (taken, dropped) = take-full n bytes (pending s.world) h in
      rw (loop-full sock n fuel bytes s (ground arith)) (ap ok (sym taken), sym dropped, refl)

  chunk-stream :
      (sock n fuel : ℕ) (bytes chunk : Bytes) (s : State W)
      → ltb (length bytes) n ≡ true
      → (net.recv sock (n - length bytes) s.world).0 ≡ done chunk
      → pending s.world ≡ chunk ++ pending (received sock (n - length bytes) s).world
      → 0 < length chunk
      → Took
          (take n ((bytes ++ chunk) ++ pending (received sock (n - length bytes) s).world))
          (drop n ((bytes ++ chunk) ++ pending (received sock (n - length bytes) s).world))
          (received sock (n - length bytes) s)
          (recvn_loop net config sock n fuel (bytes ++ chunk) (received sock (n - length bytes) s))
      → Took
          (take n (bytes ++ pending s.world))
          (drop n (bytes ++ pending s.world))
          s
          (recvn_loop net config sock n (suc fuel) bytes s)
  chunk-stream sock n fuel bytes chunk s more came split some_bytes rest =
      let same = sym (
        append_assoc bytes chunk (pending (received sock (n - length bytes) s).world)
        ∙ ap (λ x. bytes ++ x) (sym split)) in
      rw (loop-chunk sock n fuel bytes chunk s more came (is_empty-length chunk some_bytes))
        (rw same rest)

  recvn_loop-stream :
      (sock n fuel : ℕ) (bytes : Bytes) (s : State W)
      → length bytes ≤ n
      → n ≤ length bytes + fuel
      → n ≤ length bytes + length (pending s.world)
      → Took
          (take n (bytes ++ pending s.world))
          (drop n (bytes ++ pending s.world))
          s
          (recvn_loop net config sock n fuel bytes s)
  recvn_loop-stream sock n zero bytes s a b c = full-stream sock n 0 bytes s (omega arith)
  recvn_loop-stream sock n (suc fuel) bytes s a b c = elim (Bool-cases (ltb (length bytes) n)) [
    | inl more ↦
        let below : length bytes < n = ground arith in
        let (chunk, came, split, some_bytes, few) =
          stream sock (n - length bytes) s.world (omega arith) (omega arith) in
        let s' = received sock (n - length bytes) s in
        let rest =
          recvn_loop-stream sock n fuel (bytes ++ chunk) s'
            (omega (arith, length-append bytes chunk)) (omega (arith, length-append bytes chunk))
            (omega (
              arith,
              length-append bytes chunk,
              ap length split,
              length-append chunk (pending s'.world),
            )) in
        chunk-stream sock n fuel bytes chunk s more came split some_bytes rest
    | inr full ↦ full-stream sock n (suc fuel) bytes s (ground arith)
  ]

  pub the_socket-connected :
      (sock : ℕ) (s : State W) → s.sock ≡ some sock → the_socket net config s ≡ (ok sock, s)
  unfolding the_socket
  the_socket-connected sock s h =
      ap (λ o. (elim o as (λ _. Op W ℕ) [ none ↦ raise assertion_failed | some n ↦ pure n ]) s) h

  recvn-connected :
      (sock n : ℕ) (s : State W)
      → s.sock ≡ some sock
      → recvn net config n s ≡ recvn_loop net config sock n n [] s
  unfolding recvn
  recvn-connected sock n s h =
      >>=-ok (the_socket net config) (λ x. recvn_loop net config x n n [])
        (the_socket-connected sock s h)

  -- Connected, and with the bytes of a part and any others behind it pending, `_recvn` returns exactly
  -- the part, leaves the others pending and stays connected, however `recv` cuts the stream into chunks.
  pub recvn-stream :
      (sock : ℕ) (part rest : Bytes) (s : State W)
      → s.sock ≡ some sock
      → pending s.world ≡ part ++ rest
      → ((recvn net config (length part) s).0 ≡ ok part)
        × (pending (recvn net config (length part) s).1.world ≡ rest)
        × ((recvn net config (length part) s).1.sock ≡ s.sock)
  recvn-stream sock part rest s connected h =
      let (r, p, k) =
        recvn_loop-stream sock (length part) (length part) [] s (omega arith) (omega arith)
          (omega (arith, ap length h, length-append part rest)) in
      rw (recvn-connected sock (length part) s connected) (
        r ∙ ap ok (rw h (take-length-append part rest)),
        p ∙ rw h (drop-length-append part rest),
        k,
      )

  result-eq : {A : Type 0} {a : A} (x : Result A × State W) → x.0 ≡ ok a → x ≡ (ok a, x.1)
  result-eq x h = ap (λ r. (r, x.1)) h

  receive-ok :
      (header payload : Bytes) (s : State W)
      → unpack_u32 header ≡ ok (length payload)
      → length payload ≤ config.max_frame_bytes
      → length header ≡ 4
      → (recvn net config (length header) s).0 ≡ ok header
      → (recvn net config (length payload) (recvn net config (length header) s).1).0 ≡ ok payload
      → receive net config s ≡ (
        decode_response payload,
        (recvn net config (length payload) (recvn net config (length header) s).1).1,
      )
  unfolding receive
  receive-ok header payload s unpacked small four r r' =
      let s' = (recvn net config (length header) s).1 in
      let limit = λ (n : ℕ). ltb config.max_frame_bytes n in
      let large = λ (n : ℕ). frame_too_large n config.max_frame_bytes in
      let decoded = λ (bytes : Bytes). lift {W = W} (decode_response bytes) in
      let body = λ (n : ℕ). recvn net config n >>= decoded in
      let guarded = λ (n : ℕ). raise_when (limit n) (large n) >> body n in
      let got : recvn net config 4 s ≡ (ok header, s') =
        rw (sym four) (result-eq (recvn net config (length header) s) r) in
      >>=-ok (recvn net config 4) (λ bytes. lift (unpack_u32 bytes) >>= guarded) got
      ∙ >>=-ok (lift (unpack_u32 header)) guarded (ap (λ x. (x, s')) unpacked)
      ∙ >>=-ok (raise_when (limit (length payload)) (large (length payload)))
          (λ _. body (length payload))
          (raise_when-false (limit (length payload)) (large (length payload)) s' (ground arith))
      ∙ >>=-ok (recvn net config (length payload)) decoded
          (result-eq (recvn net config (length payload) s') r')

  -- Connected, and with a frame pending that is no longer than the limit, `_recv` returns what
  -- `decode_response` makes of its payload and leaves what is behind the frame pending.
  pub receive-stream :
      (sock : ℕ) (header payload rest : Bytes) (s : State W)
      → s.sock ≡ some sock
      → pack_u32 (length payload) ≡ ok header
      → length payload ≤ config.max_frame_bytes
      → pending s.world ≡ header ++ payload ++ rest
      → ((receive net config s).0 ≡ decode_response payload)
        × (pending (receive net config s).1.world ≡ rest)
        × ((receive net config s).1.sock ≡ some sock)
  receive-stream sock header payload rest s connected packed small h =
      let (unpacked, four) = unpack_u32-pack_u32 (length payload) header packed in
      let (r, p, k) =
        recvn-stream sock header (payload ++ rest) s connected
          (h ∙ append_assoc header payload rest) in
      let s' = (recvn net config (length header) s).1 in
      let (r', p', k') = recvn-stream sock payload rest s' (k ∙ connected) p in
      rw (receive-ok header payload s unpacked small four r r') (refl, p', k' ∙ (k ∙ connected))
