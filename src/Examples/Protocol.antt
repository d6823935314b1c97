-- ===== src/Examples/Protocol.antt =====
-- A codec of messages without entries of one node, with a tag of 32 copies of a sum.
use distributed_load_balance.Prelude.{
  ℕ, zero, suc, ◌+◌, ◌≤◌, ◌≡◌, refl, Bool, true, false, List, [], ◌∷◌, ◌++◌, Option, none, some,
  arith, length, ◌&&◌, ◌==◌, nat_eq, string_eq, String, Bool-cases, inl, inr, if◌then◌else◌,
}
use distributed_load_balance.Cluster.Protocol.{
  SyncMessage, Codec, KeyEntry, encode, read_message, received, failed, permission_denied,
  to_be_bytes, from_be_bytes, max_message_bytes,
}
use distributed_load_balance.Cluster.Frames.{
  read_message-encode, read_message-tampered, read_message-authenticated,
}

abbrev same : List ℕ → List ℕ → Bool
same [] [] = true
same [] (y ∷ ys) = false
same (x ∷ xs) [] = false
same (x ∷ xs) (y ∷ ys) = (x == y) && same xs ys

same_refl : (xs : List ℕ) → same xs xs ≡ true
same_refl [] = refl
same_refl (x ∷ xs) = let h = (nat_eq.same_iff x x).1 refl in rw (h, same_refl xs) refl

same_eq : (xs ys : List ℕ) → same xs ys ≡ true → xs ≡ ys
same_eq [] [] h = refl
same_eq [] (y ∷ ys) h = cc h
same_eq (x ∷ xs) [] h = cc h
same_eq (x ∷ xs) (y ∷ ys) h = elim (Bool-cases (x == y)) [
  | inl e ↦
      (let rest : same xs ys ≡ true = rw e at h in
        cc ((nat_eq.same_iff x y).0 e, same_eq xs ys rest))
  | inr e ↦ (let stop : false ≡ true = rw e at h in cc stop)
]

abbrev total : List ℕ → ℕ
total [] = 0
total (b ∷ bs) = b + total bs

abbrev copies : ℕ → ℕ → List ℕ
copies zero b = []
copies (suc n) b = b ∷ copies n b

abbrev tag_of : List ℕ → List ℕ → List ℕ
tag_of secret payload = copies 32 (total secret + total payload)

abbrev message : ℕ → SyncMessage
message n = record { node_id = "a"; incarnation = n; entries = [] }

abbrev vec_of : String → ℕ → List KeyEntry → Option (List ℕ)
vec_of id n [] = if id == "a" then some (n ∷ []) else none
vec_of id n (e ∷ es) = none

abbrev parse : List ℕ → Option SyncMessage
parse (n ∷ []) = some (message n)
parse _ = none

parse-vec_of :
    (id : String) (n : ℕ) (es : List KeyEntry) (payload : List ℕ)
    → vec_of id n es ≡ some payload
    → parse payload ≡ some (record { node_id = id; incarnation = n; entries = es })
parse-vec_of id n (e ∷ es) payload h = cc h
parse-vec_of id n [] payload h = elim (Bool-cases (id == "a")) [
  | inl e ↦
      let found : some (n ∷ []) ≡ some payload = rw e at h in
      let front : n ∷ [] ≡ payload = cc found in rw (← front, (string_eq.same_iff id "a").0 e) refl
  | inr e ↦ (let stop : none ≡ some payload = rw e at h in cc stop)
]

abbrev codec : Codec
codec = record {
  tag_for = tag_of;
  verify_slice = λ secret payload tag. same tag (tag_of secret payload);
  to_vec = λ m. vec_of m.node_id m.incarnation m.entries;
  from_slice = parse;
  length-tag_for = λ secret payload. refl;
  verify_slice_iff = λ secret payload tag.
      (same_eq tag (tag_of secret payload), λ e. rw e (same_refl (tag_of secret payload)));
  from_slice-to_vec = λ m payload h. parse-vec_of m.node_id m.incarnation m.entries payload h;
}

abbrev secret : List ℕ
secret = 3 ∷ 4 ∷ []

abbrev rest : List ℕ
rest = 9 ∷ 9 ∷ []

-- The frame of the message with incarnation 5.
abbrev frame : List ℕ
frame = to_be_bytes 33 ++ ((copies 32 12 ++ (5 ∷ [])) ++ rest)

read_message-encode_example :
    (sent : List ℕ) × (encode codec (message 5) secret ≡ some sent)
    × (read_message codec (sent ++ rest) secret ≡ received (message 5) rest)
read_message-encode_example =
    read_message-encode codec (message 5) secret (5 ∷ []) rest refl (omega arith)

-- The tag is one for another secret.
read_message-tampered_example :
    read_message codec (to_be_bytes 33 ++ ((copies 32 11 ++ (5 ∷ [])) ++ rest)) secret
    ≡ failed permission_denied
read_message-tampered_example =
    read_message-tampered codec secret (copies 32 11) (5 ∷ []) rest refl (omega arith) (λ e. cc e)

accepted : read_message codec frame secret ≡ received (message 5) rest
unfolding read_message
accepted = refl

read_message-authenticated_example :
    (head payload : List ℕ) × (frame ≡ head ++ ((tag_of secret payload ++ payload) ++ rest))
    × (parse payload ≡ some (message 5))
    × (length head ≡ 4)
    × (from_be_bytes head ≡ 32 + length payload)
    × (from_be_bytes head ≤ max_message_bytes)
read_message-authenticated_example =
    read_message-authenticated codec frame secret rest (message 5) accepted
