-- ===== src/Http/Cookie.antt =====
-- The sticky cookie of crates/lb-proxy/src/sticky.rs among the other cookies of a request.
use distributed_load_balance.Prelude.{
  ℕ, ◌/◌, ◌%◌, ◌<◌, ◌≡◌, refl, ap, ◌∙◌, inl, inr, Bool, true, false, not, ◌&&◌, List, [], ◌∷◌, ◌++◌,
  Option, some, none, All, arith, ◌==◌, nat_eq, Bool-cases,
}
use distributed_load_balance.Http.Percent.{
  is_unreserved, hex_digit, percent_encode, percent_decode, Text, is_visible,
}
use distributed_load_balance.Http.RoundTrip.{decode_bytes-percent_encode}
use distributed_load_balance.Http.Sticky.{
  semicolon, equals_sign, is_space, cons_first, split, split_once, trim_end, trim, bytes_eq,
  value_or, find_pair, read_sticky_backend, cookie_pair,
}

-- Neither a space nor a separator of cookies.
abbrev pub is_plain : ℕ → Bool
is_plain b = not (is_space b) && not (b == semicolon)

abbrev pub ArePlain : List ℕ → Type 0
ArePlain = All (λ b. is_plain b ≡ true)

abbrev pub AreVisible : List ℕ → Type 0
AreVisible = All (λ b. is_visible b ≡ true)

-- A name has no `=` either, and is visible.
abbrev pub IsName : List ℕ → Type 0
IsName name = ArePlain name × All (λ b. (b == equals_sign) ≡ false) name × AreVisible name

-- Cookies as a client joins them.
abbrev pub join : List (List ℕ) → List ℕ
join [] = []
join (s ∷ []) = s
join (s ∷ t ∷ ts) = s ++ semicolon ∷ join (t ∷ ts)

abbrev pub HaveNoSemicolon : List ℕ → Type 0
HaveNoSemicolon = All (λ b. (b == semicolon) ≡ false)

split-last : (s : List ℕ) → HaveNoSemicolon s → split semicolon s ≡ s ∷ []
split-last [] h = refl
split-last (b ∷ bs) h = rw (h.0) (ap (cons_first b) (split-last bs h.1))

split-append :
    (s rest : List ℕ)
    → HaveNoSemicolon s
    → split semicolon (s ++ semicolon ∷ rest) ≡ s ∷ split semicolon rest
split-append [] rest h = refl
split-append (b ∷ bs) rest h = rw (h.0) (ap (cons_first b) (split-append bs rest h.1))

split-join :
    (s : List ℕ) (ss : List (List ℕ))
    → All HaveNoSemicolon (s ∷ ss)
    → split semicolon (join (s ∷ ss)) ≡ s ∷ ss
split-join s [] h = split-last s h.0
split-join s (t ∷ ts) h =
    split-append s (join (t ∷ ts)) h.0 ∙ ap (λ xs. s ∷ xs) (split-join t ts h.1)

trim_end-plain : (bs : List ℕ) → ArePlain bs → trim_end bs ≡ bs
trim_end-plain [] h = refl
trim_end-plain (b ∷ bs) h = ground (arith, h.0, trim_end-plain bs h.1)

trim-plain : (bs : List ℕ) → ArePlain bs → trim bs ≡ bs
trim-plain [] h = refl
trim-plain (b ∷ bs) h =
    let dull : is_space b ≡ false = ground (arith, h.0) in rw dull (trim_end-plain (b ∷ bs) h)

bytes_eq_refl : (bs : List ℕ) → bytes_eq bs bs ≡ true
bytes_eq_refl [] = refl
bytes_eq_refl (b ∷ bs) = ground (arith, bytes_eq_refl bs, nat_eq.same_iff b b)

split_once-append :
    (name value : List ℕ)
    → All (λ b. (b == equals_sign) ≡ false) name
    → split_once equals_sign (name ++ equals_sign ∷ value) ≡ some (name, value)
split_once-append [] value h = refl
split_once-append (b ∷ bs) value h = rw (h.0) (rw (split_once-append bs value h.1) refl)

hex_digit-plain : (n : ℕ) → n < 16 → is_plain (hex_digit n) ≡ true
unfolding hex_digit
hex_digit-plain n h = ground arith

unreserved-plain : (b : ℕ) → is_unreserved b ≡ true → is_plain b ≡ true
unfolding is_unreserved
unreserved-plain b h = ground arith

percent_encode-plain : (bs : List ℕ) → All (λ b. b < 256) bs → ArePlain (percent_encode bs)
unfolding percent_encode
percent_encode-plain [] h = tt
percent_encode-plain (b ∷ bs) h = elim (Bool-cases (is_unreserved b)) [
  | inl e ↦ rw (e, percent_encode) (unreserved-plain b e, percent_encode-plain bs h.1)
  | inr e ↦
      let small = h.0 in
      rw (e, percent_encode)
        (
          refl,
          (
            hex_digit-plain (b / 16) (omega (arith, small)),
            (hex_digit-plain (b % 16) (omega arith), percent_encode-plain bs h.1),
          ),
        )
]

append-plain : (xs ys : List ℕ) → ArePlain xs → ArePlain ys → ArePlain (xs ++ ys)
append-plain [] ys h k = k
append-plain (x ∷ xs) ys h k = (h.0, append-plain xs ys h.1 k)

plain-no_semicolon : (bs : List ℕ) → ArePlain bs → HaveNoSemicolon bs
plain-no_semicolon [] h = tt
plain-no_semicolon (b ∷ bs) h =
    let first = h.0 in (ground (arith, first), plain-no_semicolon bs h.1)

visible_append : (xs ys : List ℕ) → AreVisible xs → AreVisible ys → AreVisible (xs ++ ys)
visible_append [] ys h k = k
visible_append (x ∷ xs) ys h k = (h.0, visible_append xs ys h.1 k)

hex_digit-visible : (n : ℕ) → n < 16 → is_visible (hex_digit n) ≡ true
unfolding hex_digit
hex_digit-visible n h = ground arith

unreserved-visible : (b : ℕ) → is_unreserved b ≡ true → is_visible b ≡ true
unfolding is_unreserved
unreserved-visible b h = ground arith

percent_encode-visible : (bs : List ℕ) → All (λ b. b < 256) bs → AreVisible (percent_encode bs)
unfolding percent_encode
percent_encode-visible [] h = tt
percent_encode-visible (b ∷ bs) h = elim (Bool-cases (is_unreserved b)) [
  | inl e ↦ rw (e, percent_encode) (unreserved-visible b e, percent_encode-visible bs h.1)
  | inr e ↦
      let small = h.0 in
      rw (e, percent_encode)
        (
          refl,
          (
            hex_digit-visible (b / 16) (omega (arith, small)),
            (hex_digit-visible (b % 16) (omega arith), percent_encode-visible bs h.1),
          ),
        )
]

join-visible : (ss : List (List ℕ)) → All AreVisible ss → AreVisible (join ss)
join-visible [] h = tt
join-visible (s ∷ []) h = h.0
join-visible (s ∷ t ∷ ts) h =
    visible_append s (semicolon ∷ join (t ∷ ts)) h.0 (refl, join-visible (t ∷ ts) h.1)

module _ (text : Text) (name id : List ℕ) (n : IsName name) (bytes : All (λ b. b < 256) id)
    (valid : text.is_utf8 id ≡ true) where
  pair-plain : ArePlain (cookie_pair name id)
  unfolding cookie_pair
  pair-plain =
      append-plain name (equals_sign ∷ percent_encode id) n.0 (refl, percent_encode-plain id bytes)

  percent_decode-percent_encode : percent_decode text (percent_encode id) ≡ id
  unfolding percent_decode
  percent_decode-percent_encode =
      let back = decode_bytes-percent_encode id bytes in rw (back, valid) refl

  -- The pair is found behind a space, as clients send it.
  find_pair-cookie_pair :
      (pairs : List (List ℕ)) → find_pair text name ((32 ∷ cookie_pair name id) ∷ pairs) ≡ some id
  unfolding find_pair cookie_pair
  find_pair-cookie_pair pairs =
      let trimmed : trim (32 ∷ cookie_pair name id) ≡ cookie_pair name id =
        trim-plain (cookie_pair name id) pair-plain in
      let once : split_once equals_sign (cookie_pair name id) ≡ some (name, percent_encode id) =
        split_once-append name (percent_encode id) n.1 in
      let same : bytes_eq (trim name) name ≡ true = rw (trim-plain name n.0) (bytes_eq_refl name) in
      let value : percent_decode text (trim (percent_encode id)) ≡ id =
        ap (percent_decode text) (trim-plain (percent_encode id) (percent_encode-plain id bytes))
        ∙ percent_decode-percent_encode in
      ap (λ o. value_or text name o (find_pair text name pairs))
        (ap (split_once equals_sign) trimmed ∙ once)
      ∙ rw same (ap some value)

  skipped_round :
      (o : Option (List ℕ × List ℕ)) (old new found : Option (List ℕ))
      → value_or text name o old ≡ none
      → (old ≡ none → new ≡ found)
      → value_or text name o new ≡ found
  skipped_round none old new found h k = k h
  skipped_round (some p) old new found h k = elim (Bool-cases (bytes_eq (trim p.0) name)) [
    | inl e ↦ (let stop : some (percent_decode text (trim p.1)) ≡ none = rw e at h in cc stop)
    | inr e ↦ rw e (k (rw e at h))
  ]

  find_pair-append :
      (before pairs : List (List ℕ))
      → find_pair text name before ≡ none
      → find_pair text name (before ++ pairs) ≡ find_pair text name pairs
  unfolding find_pair
  find_pair-append [] pairs h = refl
  find_pair-append (p ∷ before) pairs h =
      skipped_round (split_once equals_sign (trim p)) (find_pair text name before)
        (find_pair text name (before ++ pairs)) (find_pair text name pairs) h
        (find_pair-append before pairs)

  clean :
      (before after : List (List ℕ))
      → All HaveNoSemicolon before
      → All HaveNoSemicolon after
      → All HaveNoSemicolon (before ++ (32 ∷ cookie_pair name id) ∷ after)
  clean [] after h k = ((refl, plain-no_semicolon (cookie_pair name id) pair-plain), k)
  clean (s ∷ before) after h k = (h.0, clean before after h.1 k)

  pair-visible : AreVisible (cookie_pair name id)
  unfolding cookie_pair
  pair-visible =
      visible_append name (equals_sign ∷ percent_encode id) n.2
        (refl, percent_encode-visible id bytes)

  pairs-visible :
      (before after : List (List ℕ))
      → All AreVisible before
      → All AreVisible after
      → All AreVisible (before ++ (32 ∷ cookie_pair name id) ∷ after)
  pairs-visible [] after h k = ((refl, pair-visible), k)
  pairs-visible (s ∷ before) after h k = (h.0, pairs-visible before after h.1 k)

  pub read_sticky_backend-cookie_pair :
      (first : List ℕ) (before after values : List (List ℕ))
      → All HaveNoSemicolon (first ∷ before)
      → All HaveNoSemicolon after
      → All AreVisible (first ∷ before)
      → All AreVisible after
      → find_pair text name (first ∷ before) ≡ none
      → read_sticky_backend text
          (join (first ∷ before ++ (32 ∷ cookie_pair name id) ∷ after) ∷ values)
          name
        ≡ some id
  unfolding read_sticky_backend
  read_sticky_backend-cookie_pair first before after values h k u w none_before =
      let raw = join (first ∷ before ++ (32 ∷ cookie_pair name id) ∷ after) in
      let readable : text.to_str raw ≡ some raw = text.to_str_visible raw (
        join-visible (first ∷ before ++ (32 ∷ cookie_pair name id) ∷ after)
          (u.0, pairs-visible before after u.1 w)) in
      rw (readable, read_sticky_backend)
        (ap (find_pair text name) (
            split-join first (before ++ (32 ∷ cookie_pair name id) ∷ after)
              (h.0, clean before after h.1 k))
          ∙ find_pair-append (first ∷ before) ((32 ∷ cookie_pair name id) ∷ after) none_before
          ∙ find_pair-cookie_pair after)
