-- ===== src/Chunk/Packed.antt =====
-- What `SendAll` sends (grpc/chunk/chunker.go).
use zoekt.Prelude.{
  true, false, ℕ, ◌+◌, ◌≤◌, ◌<◌, leb, Bool-cases, Option-cases, leb→le, leb-false→lt,
}
use zoekt.Prelude.{
  ◌≡◌, refl, sym, ap, subst, ◌∙◌, ◌⊎◌, inl, inr, List, [], ◌∷◌, ◌++◌, append_assoc, length, Option,
  none, some, arith,
}
use zoekt.Chunk.{
  max_message_size, new, Chunker, Sent, and_then, send_one, send, flush, send_all,
  send_response_msg,
}

abbrev pub after : {S E : Type 0} → Option E → S → (S → Option E × S) → Option E × S
after (some err) s rest = (some err, s)
after none s rest = rest s

-- To send chunks one after the other, up to the first error.
unfoldable pub deliver :
    {A S E : Type 0} → (List A → S → S × Option E) → List (List A) → S → Option E × S
deliver send_func [] s = (none, s)
deliver send_func (c ∷ cs) s =
    after (send_func c s).1 (send_func c s).0 (λ s'. deliver send_func cs s')

abbrev pub concat : {A : Type 0} → List (List A) → List A
concat [] = []
concat (c ∷ cs) = c ++ concat cs

module _ {A : Type 0} (size : A → ℕ) where
  abbrev pub total : List A → ℕ
  total [] = 0
  total (x ∷ xs) = size x + total xs

  -- Below the limit, or one item that may be larger.
  abbrev pub Fits : List A → Type 0
  Fits c = (total c < max_message_size) ⊎ (length c ≡ 1)

  -- The chunk behind `c` begins with an item for which there was no room in `c`.
  abbrev pub Follows : List A → List (List A) → Type 0
  Follows c [] = Unit {0}
  Follows c ([] ∷ cs) = ⊥
  Follows c ((x ∷ xs) ∷ cs) = max_message_size ≤ size x + total c

  abbrev pub NotEmpty : List A → Type 0
  NotEmpty [] = ⊥
  NotEmpty (x ∷ xs) = Unit {0}

  abbrev pub IsPacked : List (List A) → Type 0
  IsPacked [] = Unit {0}
  IsPacked (c ∷ cs) = NotEmpty c × Fits c × Follows c cs × IsPacked cs

module _ {A : Type 0} (size : A → ℕ) where
  -- Packed chunks, but in front of a first item that reaches the limit by itself, and only there,
  -- stands an empty one.
  abbrev pub IsSplit : List (List A) → Type 0
  IsSplit [] = Unit {0}
  IsSplit ([] ∷ []) = ⊥
  IsSplit ([] ∷ c ∷ cs) = Follows size [] (c ∷ cs) × IsPacked size (c ∷ cs)
  IsSplit ((x ∷ xs) ∷ cs) = (size x < max_message_size) × IsPacked size ((x ∷ xs) ∷ cs)

pub total-snoc :
    {A : Type 0} (size : A → ℕ) (xs : List A) (x : A)
    → total size (xs ++ x ∷ []) ≡ total size xs + size x
total-snoc size [] x = omega arith
total-snoc size (y ∷ ys) x = ap (λ k. size y + k) (total-snoc size ys x) ∙ omega arith

abbrev pub outcome : {A S E : Type 0} → Sent A S E → Option E × S
outcome r = (r.error, r.state)

module _ {A S E : Type 0} (size : A → ℕ) (f : List A → S → S × Option E) where
  -- What is left to do of `SendAll`, from a chunker on.
  unfoldable finish : List A → Chunker A → S → Sent A S E
  finish items c s =
      let sent = send size f items c s in and_then sent.error sent.chunker sent.state (flush size f)

  finish-room :
      (x : A) (xs : List A) (c : Chunker A) (s : S)
      → leb max_message_size (size x + c.size_bytes) ≡ false
      → finish (x ∷ xs) c s
        ≡ finish xs (record { buffer = c.buffer ++ x ∷ []; size_bytes = c.size_bytes + size x }) s
  unfolding finish send send_one
  finish-room x xs c s e = rw e refl

  finish-full :
      (x : A) (xs : List A) (c : Chunker A) (s : S)
      → leb max_message_size (size x + c.size_bytes) ≡ true
      → finish (x ∷ xs) c s
        ≡ and_then
            (f c.buffer s).1
            (record c { size_bytes = 0 })
            (f c.buffer s).0
            (λ c' s'. finish xs (record { buffer = x ∷ []; size_bytes = 0 + size x }) s')
  unfolding finish send send_one send_response_msg
  finish-full x xs c s e = elim (Option-cases (f c.buffer s).1) [
    | inl ok' ↦ rw (e, ok') refl
    | inr (err, bad) ↦ rw (e, bad) refl
  ]

  finish-last :
      (y : A) (ys : List A) (n : ℕ) (s : S)
      → outcome (finish [] (record { buffer = y ∷ ys; size_bytes = n }) s)
        ≡ deliver f ((y ∷ ys) ∷ []) s
  unfolding finish send flush send_response_msg deliver
  finish-last y ys n s = elim (Option-cases (f (y ∷ ys) s).1) [
    | inl ok' ↦ rw ok' refl
    | inr (err, bad) ↦ rw bad refl
  ]

  finish-chunk :
      (b : List A) (n : ℕ) (x : A) (xs : List A) (cs : List (List A)) (s : S)
      → leb max_message_size (size x + n) ≡ true
      → ((s' : S)
          → outcome (finish xs (record { buffer = x ∷ []; size_bytes = 0 + size x }) s')
            ≡ deliver f cs s')
      → outcome (finish (x ∷ xs) (record { buffer = b; size_bytes = n }) s) ≡ deliver f (b ∷ cs) s
  unfolding deliver
  finish-chunk b n x xs cs s e more =
      ap outcome (finish-full x xs (record { buffer = b; size_bytes = n }) s e)
      ∙ elim (Option-cases (f b s).1) [
        | inl ok' ↦ rw ok' (more (f b s).0)
        | inr (err, bad) ↦ rw bad refl
      ]

module _ {A S E : Type 0} (size : A → ℕ) where
  -- Chunks for the items behind the first one, `y`, when the buffer has `y` and `ys`.
  packing :
      (items : List A) (y : A) (ys : List A) (n : ℕ)
      → n ≡ total size (y ∷ ys)
      → Fits size (y ∷ ys)
      → (zs : List A) × (cs : List (List A)) × (concat ((y ∷ zs) ∷ cs) ≡ (y ∷ ys) ++ items)
        × IsPacked size ((y ∷ zs) ∷ cs)
        × ((f : List A → S → S × Option E) (s : S)
            → outcome (finish size f items (record { buffer = y ∷ ys; size_bytes = n }) s)
              ≡ deliver f ((y ∷ zs) ∷ cs) s)
  packing [] y ys n sized fits =
      (ys, [], refl, (tt, fits, tt, tt), λ f s. finish-last size f y ys n s)
  packing (x ∷ xs) y ys n sized fits = elim (Bool-cases (leb max_message_size (size x + n))) [
    | inl e ↦
        let wide : max_message_size ≤ size x + n = leb→le _ _ e in
        let (zs, cs, same, packed, sends) = packing xs x [] (0 + size x) (omega arith) (inr refl) in
        (
          ys,
          (x ∷ zs) ∷ cs,
          ap (λ l. (y ∷ ys) ++ l) same,
          (tt, fits, subst (λ k. max_message_size ≤ size x + k) sized wide, packed),
          λ f s. finish-chunk size f (y ∷ ys) n x xs ((x ∷ zs) ∷ cs) s e (sends f),
        )
    | inr e ↦
        let room : size x + n < max_message_size = leb-false→lt _ _ e in
        let grown : n + size x ≡ total size (y ∷ ys ++ x ∷ []) =
          ap (λ k. k + size x) sized ∙ sym (total-snoc size (y ∷ ys) x) in
        let (zs, cs, same, packed, sends) =
          packing xs y (ys ++ x ∷ []) (n + size x) grown (inl (let g = grown in omega arith)) in
        (
          zs,
          cs,
          same ∙ append_assoc (y ∷ ys) (x ∷ []) xs,
          packed,
          λ f s. ap outcome (finish-room size f x xs _ s e) ∙ sends f s,
        )
  ]

-- `SendAll` sends the items, all of them and in order, in the same chunks whatever the function
-- that sends does, up to its first error, which it returns. A chunk is below `maxMessageSize` or
-- has one item, and it ends where there is no room for the item behind it; none is empty but the
-- first one, and that one if and only if the first item alone has the size.
pub send_all-deliver :
    {A S E : Type 0} (size : A → ℕ) (items : List A)
    → (cs : List (List A)) × (concat cs ≡ items)
      × IsSplit size cs
      × ((f : List A → S → S × Option E) (s : S)
          → outcome (send_all size f items s) ≡ deliver f cs s)
unfolding send_all finish deliver send flush
send_all-deliver size [] = ([], refl, tt, λ f s. refl)
send_all-deliver {S = S} {E = E} size (x ∷ xs) =
    elim (Bool-cases (leb max_message_size (size x + 0))) [
      | inl e ↦
          let (zs, cs, same, packed, sends) =
            packing {S = S} {E = E} size xs x [] (0 + size x) (omega arith) (inr refl) in
          (
            [] ∷ (x ∷ zs) ∷ cs,
            same,
            (leb→le _ _ e, packed),
            λ f s. finish-chunk size f [] 0 x xs ((x ∷ zs) ∷ cs) s e (sends f),
          )
      | inr e ↦
          let (zs, cs, same, packed, sends) =
            packing {S = S} {E = E} size xs x [] (0 + size x) (omega arith) (inr refl) in
          (
            (x ∷ zs) ∷ cs,
            same,
            (let room = leb-false→lt _ _ e in omega arith, packed),
            λ f s. ap outcome (finish-room size f x xs new s e) ∙ sends f s,
          )
    ]
