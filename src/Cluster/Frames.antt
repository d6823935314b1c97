-- ===== src/Cluster/Frames.antt =====
-- Lemmas on the frames that a peer reads (crates/lb-cluster/src/protocol.rs).
use distributed_load_balance.Prelude.{
  ℕ, zero, suc, ◌+◌, ◌%◌, ◌^◌, ◌<◌, ◌≤◌, ◌≡◌, refl, sym, ap, ◌∙◌, inl, inr, false, List, [], ◌∷◌,
  ◌++◌, none, some, arith, length, length-append, ltb, Option-cases, Bool-cases,
}
use distributed_load_balance.Cluster.Protocol.{
  hmac_tag_len, max_message_bytes, SyncMessage, Codec, to_be_bytes, from_be_bytes, read_exact,
  unexpected_eof, invalid_data, permission_denied, received, failed, encode, open_frame, read_frame,
  checked_frame, read_message,
}

read_exact-append :
    (n : ℕ) (xs ys : List ℕ) → length xs ≡ n → read_exact n (xs ++ ys) ≡ some (xs, ys)
read_exact-append zero [] ys h = refl
read_exact-append zero (x ∷ xs) ys h = absurd (omega (arith, h))
read_exact-append (suc n) [] ys h = absurd (omega (arith, h))
read_exact-append (suc n) (x ∷ xs) ys h = rw (read_exact-append n xs ys (omega (arith, h))) refl

-- What was read is a front of the stream, of that length.
read_exact_lem :
    (n : ℕ) (bs : List ℕ) (p : List ℕ × List ℕ)
    → read_exact n bs ≡ some p
    → (bs ≡ p.0 ++ p.1) × (length p.0 ≡ n)
read_exact_lem zero bs p h = let e : ([], bs) ≡ p = cc h in rw (← e) (refl, refl)
read_exact_lem (suc n) [] p h = cc h
read_exact_lem (suc n) (b ∷ bs) p h = elim (Option-cases (read_exact n bs)) [
  | inl e ↦ (let stop : none ≡ some p = rw e at h in cc stop)
  | inr (q, e) ↦
      let found : some (b ∷ q.0, q.1) ≡ some p = rw e at h in
      let same : (b ∷ q.0, q.1) ≡ p = cc found in
      let (front, count) = read_exact_lem n bs q e in
      rw (← same) (ap (λ xs. b ∷ xs) front, omega (arith, count))
]

from_be_bytes-to_be_bytes : (n : ℕ) → n < 2 ^ 32 → from_be_bytes (to_be_bytes n) ≡ n
from_be_bytes-to_be_bytes n h = omega arith

module _ (codec : Codec) where
  within :
      (len : ℕ) (stream secret : List ℕ)
      → ltb max_message_bytes len ≡ false
      → ltb len hmac_tag_len ≡ false
      → checked_frame codec len stream secret ≡ read_frame codec len stream secret
  unfolding checked_frame
  within len stream secret short long = rw (short, long) refl

  opened :
      (len : ℕ) (stream secret : List ℕ) (framed halves : List ℕ × List ℕ)
      → read_exact len stream ≡ some framed
      → read_exact hmac_tag_len framed.0 ≡ some halves
      → read_frame codec len stream secret ≡ open_frame codec secret halves.0 halves.1 framed.1
  unfolding read_frame
  opened len stream secret framed halves e e' = rw (e, read_frame) (rw (e', read_frame) refl)

  opened_none :
      (len : ℕ) (stream secret : List ℕ) (framed : List ℕ × List ℕ)
      → read_exact len stream ≡ some framed
      → read_exact hmac_tag_len framed.0 ≡ none
      → read_frame codec len stream secret ≡ failed unexpected_eof
  unfolding read_frame
  opened_none len stream secret framed e e' = rw (e, read_frame) (rw (e', read_frame) refl)

  -- A frame of an admissible length is opened.
  read_message-frame :
      (secret tag payload rest : List ℕ)
      → length tag ≡ hmac_tag_len
      → hmac_tag_len + length payload ≤ max_message_bytes
      → read_message codec
          (to_be_bytes (hmac_tag_len + length payload) ++ ((tag ++ payload) ++ rest))
          secret
        ≡ open_frame codec secret tag payload rest
  unfolding read_message
  read_message-frame secret tag payload rest n small =
      let len = hmac_tag_len + length payload in
      let framed : read_exact len ((tag ++ payload) ++ rest) ≡ some (tag ++ payload, rest) =
        read_exact-append len (tag ++ payload) rest (omega (arith, length-append tag payload, n)) in
      let halves : read_exact hmac_tag_len (tag ++ payload) ≡ some (tag, payload) =
        read_exact-append hmac_tag_len tag payload n in
      let same = from_be_bytes-to_be_bytes len (omega (arith, small)) in
      let short : ltb max_message_bytes len ≡ false = ground (arith, small) in
      let long : ltb len hmac_tag_len ≡ false = ground arith in
      ap (λ (k : ℕ). checked_frame codec k ((tag ++ payload) ++ rest) secret) same
      ∙ within len ((tag ++ payload) ++ rest) secret short long
      ∙ opened len ((tag ++ payload) ++ rest) secret (tag ++ payload, rest) (tag, payload) framed
          halves

  -- An encoded message within the limit is read back by whoever has the secret, with the rest of the
  -- stream left alone.
  pub read_message-encode :
      (msg : SyncMessage) (secret payload rest : List ℕ)
      → codec.to_vec msg ≡ some payload
      → hmac_tag_len + length payload ≤ max_message_bytes
      → (frame : List ℕ) × (encode codec msg secret ≡ some frame)
        × (read_message codec (frame ++ rest) secret ≡ received msg rest)
  unfolding encode open_frame
  read_message-encode msg secret payload rest json small =
      let tag = codec.tag_for secret payload in
      let len = hmac_tag_len + length payload in
      let word : len % 2 ^ 32 ≡ len = omega (arith, small) in
      let valid = (codec.verify_slice_iff secret payload tag).1 refl in
      (
        to_be_bytes len ++ tag ++ payload,
        rw (json, encode) (ap (λ (k : ℕ). some (to_be_bytes k ++ tag ++ payload)) word),
        read_message-frame secret tag payload rest (codec.length-tag_for secret payload) small
            ∙ rw valid (rw (codec.from_slice-to_vec msg payload json) refl),
      )

  -- A frame whose tag is not that of its payload is refused as such, whatever the payload is.
  pub read_message-tampered :
      (secret tag payload rest : List ℕ)
      → length tag ≡ hmac_tag_len
      → hmac_tag_len + length payload ≤ max_message_bytes
      → ¬ (tag ≡ codec.tag_for secret payload)
      → read_message codec
          (to_be_bytes (hmac_tag_len + length payload) ++ ((tag ++ payload) ++ rest))
          secret
        ≡ failed permission_denied
  unfolding open_frame
  read_message-tampered secret tag payload rest n small other =
      read_message-frame secret tag payload rest n small
      ∙ elim (Bool-cases (codec.verify_slice secret payload tag)) [
        | inl e ↦ absurd (other ((codec.verify_slice_iff secret payload tag).0 e))
        | inr e ↦ rw e refl
      ]

  open_frame_lem :
      (secret tag payload rest rest' : List ℕ) (msg : SyncMessage)
      → open_frame codec secret tag payload rest ≡ received msg rest'
      → (tag ≡ codec.tag_for secret payload)
        × (codec.from_slice payload ≡ some msg)
        × (rest ≡ rest')
  unfolding open_frame
  open_frame_lem secret tag payload rest rest' msg h =
      elim (Bool-cases (codec.verify_slice secret payload tag)) [
        | inr e ↦ (let stop : failed permission_denied ≡ received msg rest' = rw e at h in cc stop)
        | inl e ↦ elim (Option-cases (codec.from_slice payload)) [
          | inl n ↦
              (let stop : failed invalid_data ≡ received msg rest' = rw (e, n) at h in cc stop)
          | inr (m, found) ↦
              let got : received m rest ≡ received msg rest' = rw (e, found) at h in
              ((codec.verify_slice_iff secret payload tag).0 e, cc (found, got), cc got)
        ]
      ]

  framed_lem :
      (len : ℕ) (stream secret rest : List ℕ) (msg : SyncMessage)
      → read_frame codec len stream secret ≡ received msg rest
      → (payload : List ℕ) × (stream ≡ (codec.tag_for secret payload ++ payload) ++ rest)
        × (codec.from_slice payload ≡ some msg)
        × (hmac_tag_len + length payload ≡ len)
  unfolding read_frame
  framed_lem len stream secret rest msg h = elim (Option-cases (read_exact len stream)) [
    | inl e ↦
        (let stop : failed unexpected_eof ≡ received msg rest = rw (e, read_frame) at h in cc stop)
    | inr (framed, e) ↦ elim (Option-cases (read_exact hmac_tag_len framed.0)) [
      | inl e' ↦
          (let stop : failed unexpected_eof ≡ received msg rest =
              cc (sym (opened_none len stream secret framed e e'), h) in
            cc stop)
      | inr (halves, e') ↦
          let valid =
            open_frame_lem secret halves.0 halves.1 framed.1 rest msg
              (sym (opened len stream secret framed halves e e') ∙ h) in
          let outer = read_exact_lem len stream framed e in
          let inner = read_exact_lem hmac_tag_len framed.0 halves e' in
          (
            halves.1,
            outer.0
                ∙ ap (λ xs. xs ++ framed.1) (inner.0 ∙ ap (λ xs. xs ++ halves.1) valid.0)
                ∙ ap (λ xs. (codec.tag_for secret halves.1 ++ halves.1) ++ xs) valid.2,
            valid.1,
            (let count = ap (λ (xs : List ℕ). length xs) inner.0 in
                omega (arith, count, length-append halves.0 halves.1, inner.1, outer.1)),
          )
    ]
  ]

  checked_frame_lem :
      (len : ℕ) (stream secret rest : List ℕ) (msg : SyncMessage)
      → checked_frame codec len stream secret ≡ received msg rest
      → (len ≤ max_message_bytes) × (read_frame codec len stream secret ≡ received msg rest)
  unfolding checked_frame
  checked_frame_lem len stream secret rest msg h = elim (Bool-cases (ltb max_message_bytes len)) [
    | inl e ↦ (let stop : failed invalid_data ≡ received msg rest = rw e at h in cc stop)
    | inr e ↦ elim (Bool-cases (ltb len hmac_tag_len)) [
      | inl e' ↦ (let stop : failed invalid_data ≡ received msg rest = rw (e, e') at h in cc stop)
      | inr e' ↦ (ground (arith, e), rw (e, e') at h)
    ]
  ]

  -- Whatever bytes a peer sends, a message that is accepted stands in a frame of them within the limit,
  -- of the length that its head announces, whose tag is that of its payload under the secret, and the
  -- rest of the stream is what follows.
  pub read_message-authenticated :
      (stream secret rest : List ℕ) (msg : SyncMessage)
      → read_message codec stream secret ≡ received msg rest
      → (head payload : List ℕ) × (stream
          ≡ head ++ ((codec.tag_for secret payload ++ payload) ++ rest))
        × (codec.from_slice payload ≡ some msg)
        × (length head ≡ 4)
        × (from_be_bytes head ≡ hmac_tag_len + length payload)
        × (from_be_bytes head ≤ max_message_bytes)
  unfolding read_message
  read_message-authenticated stream secret rest msg h = elim (Option-cases (read_exact 4 stream)) [
    | inl e ↦
        (let stop : failed unexpected_eof ≡ received msg rest = rw (e, read_message) at h in
          cc stop)
    | inr (head, e) ↦
        let found : checked_frame codec (from_be_bytes head.0) head.1 secret ≡ received msg rest =
          rw (e, read_message) at h in
        let small = checked_frame_lem (from_be_bytes head.0) head.1 secret rest msg found in
        let (payload, front, parsed, count) =
          framed_lem (from_be_bytes head.0) head.1 secret rest msg small.1 in
        let outer = read_exact_lem 4 stream head e in
        (
          head.0,
          payload,
          outer.0 ∙ ap (λ xs. head.0 ++ xs) front,
          parsed,
          outer.1,
          sym count,
          small.0,
        )
  ]
