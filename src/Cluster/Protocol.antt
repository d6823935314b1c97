-- ===== src/Cluster/Protocol.antt =====
-- crates/lb-cluster/src/protocol.rs: the frames that peers exchange. The keyed hash and the JSON codec
-- are third-party code: an interface with what the code relies on.
use distributed_load_balance.Prelude.{
  ℕ, zero, suc, ◌+◌, ◌*◌, ◌/◌, ◌%◌, ◌^◌, ◌≡◌, ◌↔◌, Bool, true, List, [], ◌∷◌, ◌++◌, Option, none,
  some, String, length, ltb, if◌then◌else◌,
}

abbrev pub hmac_tag_len : ℕ
hmac_tag_len = 32

abbrev pub max_message_bytes : ℕ
max_message_bytes = 4 * 1024 * 1024

pub record KeyEntry : Type 0 where
  pub key : String
  pub buckets : List (ℕ × ℕ)

pub record SyncMessage : Type 0 where
  pub node_id : String
  pub incarnation : ℕ
  pub entries : List KeyEntry

-- HMAC-SHA256 by key and payload, whose check compares the tags, and serde_json on messages.
pub record Codec : Type 0 where
  pub tag_for : List ℕ → List ℕ → List ℕ
  pub verify_slice : List ℕ → List ℕ → List ℕ → Bool
  pub to_vec : SyncMessage → Option (List ℕ)
  pub from_slice : List ℕ → Option SyncMessage
  pub length-tag_for : (secret payload : List ℕ) → length (tag_for secret payload) ≡ hmac_tag_len
  pub verify_slice_iff :
      (secret payload tag : List ℕ)
      → (verify_slice secret payload tag ≡ true) ↔ (tag ≡ tag_for secret payload)
  pub from_slice-to_vec :
      (m : SyncMessage) (payload : List ℕ) → to_vec m ≡ some payload → from_slice payload ≡ some m

-- `u32::to_be_bytes`, and back.
abbrev pub to_be_bytes : ℕ → List ℕ
to_be_bytes n = n / 2 ^ 24 % 256 ∷ n / 2 ^ 16 % 256 ∷ n / 2 ^ 8 % 256 ∷ n % 256 ∷ []

abbrev pub from_be_bytes : List ℕ → ℕ
from_be_bytes (a ∷ b ∷ c ∷ d ∷ []) = a * 2 ^ 24 + b * 2 ^ 16 + c * 2 ^ 8 + d
from_be_bytes _ = 0

-- `read_exact`: the bytes and the rest of the stream, `none` where it ends before.
abbrev pub read_exact : ℕ → List ℕ → Option (List ℕ × List ℕ)
read_exact zero bs = some ([], bs)
read_exact (suc n) [] = none
read_exact (suc n) (b ∷ bs) = elim (read_exact n bs) [ none ↦ none | some p ↦ some (b ∷ p.0, p.1) ]

pub data ErrorKind : Type 0 where
  unexpected_eof invalid_data permission_denied : ErrorKind

-- A message with the rest of the stream, or the error.
pub data Reading : Type 0 where
  received : SyncMessage → List ℕ → Reading
  failed : ErrorKind → Reading

module _ (codec : Codec) where
  unfoldable pub encode : SyncMessage → List ℕ → Option (List ℕ)
  encode msg secret = elim (codec.to_vec msg) [
    | none ↦ none
    | some payload ↦
        let len = (hmac_tag_len + length payload) % 2 ^ 32 in
        some (to_be_bytes len ++ codec.tag_for secret payload ++ payload)
  ]

  -- The tag is checked before the payload is parsed.
  unfoldable pub open_frame : List ℕ → List ℕ → List ℕ → List ℕ → Reading
  open_frame secret tag payload rest =
      if codec.verify_slice secret payload tag
      then elim (codec.from_slice payload) [
        | none ↦ failed invalid_data
        | some msg ↦ received msg rest
      ]
      else failed permission_denied

  -- The frame of the announced length; the halves of `split_at`.
  unfoldable pub read_frame : ℕ → List ℕ → List ℕ → Reading
  unfolding open_frame
  read_frame len stream secret = elim (read_exact len stream) [
    | none ↦ failed unexpected_eof
    | some framed ↦ elim (read_exact hmac_tag_len framed.0) [
      | none ↦ failed unexpected_eof
      | some halves ↦ open_frame secret halves.0 halves.1 framed.1
    ]
  ]

  -- The length is checked before anything of the frame is read.
  unfoldable pub checked_frame : ℕ → List ℕ → List ℕ → Reading
  unfolding read_frame
  checked_frame len stream secret =
      if ltb max_message_bytes len
      then failed invalid_data
      else if ltb len hmac_tag_len
      then failed invalid_data
      else read_frame len stream secret

  unfoldable pub read_message : List ℕ → List ℕ → Reading
  unfolding checked_frame
  read_message stream secret = elim (read_exact 4 stream) [
    | none ↦ failed unexpected_eof
    | some head ↦ checked_frame (from_be_bytes head.0) head.1 secret
  ]
