-- ===== src/Audit/Tamper.antt =====
-- What the hash chain of the audit log fixes, for a hash function without collisions on the texts at
-- hand and fields without the separating zero byte.
use cairnobs.Base.{
  ℕ, false, text_eq, text_eq_iff, Bool-cases, inl, inr, ◌⊎◌, List, [], ◌∷◌, ◌++◌, Option, none,
  some, Text, any, has_code, All, ◌≡◌, ◌≢◌, refl, sym, ◌∙◌, ap, arith,
}
use cairnobs.Audit.Chain.{Links, IsIntact, more}
use cairnobs.Audit.Log.{
  Entry, Record, hashed_fields, with_detail, write_all, compute_hash, last_hash, appended, append,
}

text_eq-false : {a b : Text} → text_eq a b ≡ false → a ≢ b
text_eq-false {a} {b} n q = absurd (ground (arith, (text_eq_iff a b).1 q))

abbrev pub NoNul : Text → Type 0
NoNul s = has_code 0 s ≡ false

split_at_nul :
    (a b r s : Text) → NoNul a → NoNul b → a ++ (0 ∷ r) ≡ b ++ (0 ∷ s) → (a ≡ b) × (r ≡ s)
unfolding has_code any
split_at_nul [] [] r s na nb e = (refl, cc)
split_at_nul [] (y ∷ b) r s na nb e = absurd (ground arith)
split_at_nul (x ∷ a) [] r s na nb e = absurd (ground arith)
split_at_nul (x ∷ a) (y ∷ b) r s na nb e =
    let (same, rest) = split_at_nul a b r s (ground arith) (ground arith) (cc) in (cc, rest)

write_all-ne : (x : Text) (xs : List Text) → write_all (x ∷ xs) ≢ []
unfolding write_all
write_all-ne [] xs e = cc
write_all-ne (c ∷ x) xs e = cc

pub write_all-injective :
    (xs ys : List Text) → All NoNul xs → All NoNul ys → write_all xs ≡ write_all ys → xs ≡ ys
write_all-injective [] [] nx ny e = refl
write_all-injective [] (y ∷ ys) nx ny e =
    absurd (write_all-ne y ys (sym e ∙ (unfold write_all in refl)))
write_all-injective (x ∷ xs) [] nx ny e =
    absurd (write_all-ne x xs (e ∙ (unfold write_all in refl)))
write_all-injective (x ∷ xs) (y ∷ ys) nx ny e =
    let (head, tail) =
      split_at_nul x y (write_all xs) (write_all ys) nx.0 ny.0 (unfold write_all in e) in
    cc (head, write_all-injective xs ys nx.1 ny.1 tail)

-- The fields of a row that enter its hash. Its id and its `created_at` do not.
abbrev pub row_fields : Record → List Text
row_fields r = hashed_fields r.prev_hash r.entry

abbrev pub FieldsNoNul : Record → Type 0
FieldsNoNul r = All NoNul (row_fields r)

-- The rows with the newest first.
unfoldable pub rev_onto : List Record → List Record → List Record
rev_onto [] acc = acc
rev_onto (r ∷ rs) acc = rev_onto rs (r ∷ acc)

module _ (hash : Text → Text) where
  -- Two texts with the same hash.
  pub record Collision : Type 0 where
    pub left : Text
    pub right : Text
    pub differ : left ≢ right
    pub collide : hash left ≡ hash right

module _ (hash : Text → Text) (not_empty : (s : Text) → hash s ≢ []) where
  -- An intact chain, newest row first, and the hash that the next row must follow.
  data Back : List Record → Option Text → Type 0 where
    start : Back [] none
    next :
        {rs : List Record} {h : Option Text} {r : Record}
        → Back rs h
        → Links hash h r
        → FieldsNoNul r
        → Back (r ∷ rs) (some r.row_hash)

  abbrev head : List Text → Text
  head [] = []
  head (x ∷ xs) = x

abbrev tail : {A : Type 0} → List A → List A
tail [] = []
tail (x ∷ xs) = xs

abbrev init : {A : Type 0} → List A → List A
init [] = []
init (x ∷ []) = []
init (x ∷ y ∷ ys) = x ∷ init (y ∷ ys)

snoc-ne : (a : Text) (x : ℕ) → a ++ x ∷ [] ≢ []
snoc-ne [] x e = cc
snoc-ne (c ∷ a) x e = cc

snoc-cancel : (a b : Text) (x : ℕ) → a ++ x ∷ [] ≡ b ++ x ∷ [] → a ≡ b
snoc-cancel [] [] x e = refl
snoc-cancel [] (y ∷ b) x e = absurd (snoc-ne b x (sym (ap (tail) e)))
snoc-cancel (y ∷ a) [] x e = absurd (snoc-ne a x (ap (tail) e))
snoc-cancel (y ∷ a) (z ∷ b) x e = cc (snoc-cancel a b x (ap (tail) e))

append-cancel : (s a b : Text) → s ++ a ≡ s ++ b → a ≡ b
append-cancel [] a b e = e
append-cancel (c ∷ s) a b e = append-cancel s a b (ap (tail) e)

-- What is written before the last text does not matter.
write_all-last :
    (ss : List Text) (a b : Text) → write_all (ss ++ a ∷ []) ≡ write_all (ss ++ b ∷ []) → a ≡ b
unfolding write_all
write_all-last [] a b e = snoc-cancel a b 0 e
write_all-last (s ∷ ss) a b e = write_all-last ss a b (ap (tail) (append-cancel s _ _ e))

module _ (hash : Text → Text) where
  last_link :
      (prev : Option Text) (rows : List Record) (r : Record)
      → IsIntact hash prev (rows ++ r ∷ [])
      → Links hash (last_hash hash prev rows) r
  unfolding last_hash
  last_link prev [] r (more l i) = l
  last_link prev (x ∷ rows) r (more l i) = last_link (some x.row_hash) rows r i

  -- Where the database gives the detail of a new entry back in another form than the one that was
  -- hashed, the log is not intact after the append, though nobody touched it, unless the hash of the
  -- two forms collides.
  pub append-reformatted :
      (stored : Text → Text) (id : ℕ) (e : Entry) (rows : List Record)
      → stored (with_detail e).detail ≢ (with_detail e).detail
      → ¬ IsIntact hash none (append hash stored id e rows) ⊎ Collision hash
  unfolding append
  append-reformatted stored id e rows differs =
      elim (Bool-cases (text_eq (compute_hash hash prev changed) (compute_hash hash prev entry))) [
        | inl same ↦ inr (record {
          left = write_all (hashed_fields prev changed);
          right = write_all (hashed_fields prev entry);
          differ = λ q. differs (write_all-last front _ _ q);
          collide = unfold compute_hash in (text_eq_iff _ _).0 same;
        })
        | inr other ↦ inl (λ i. text_eq-false other (sealed_by (last_link none rows _ i)))
      ]
    where
      prev : Option Text
      prev = last_hash hash none rows

      entry : Entry
      entry = with_detail e

      front : List Text
      front = init (hashed_fields prev entry)

      changed : Entry
      changed = record entry { detail = stored entry.detail }

      sealed_by :
          Links hash prev (appended hash stored id e rows)
          → compute_hash hash prev changed ≡ compute_hash hash prev entry
      sealed_by l = unfold appended in l.sealed
