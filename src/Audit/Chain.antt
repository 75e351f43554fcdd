-- ===== src/Audit/Chain.antt =====
-- What `VerifyChain` accepts, and where it stops.
use cairnobs.Base.{
  ℕ, ◌+◌, true, false, List, [], ◌∷◌, ◌++◌, length, Option, none, some, Text, text_eq, text_eq_iff,
  ◌≡◌, refl, ap, inl, inr, ◌↔◌, arith, Bool-cases,
}
use cairnobs.Audit.Log.{
  Entry, Record, with_detail, hash_ptr_equal, VerifyResult, compute_hash, last_hash, appended,
  append, verify_from, verify_chain,
}

hash_ptr_equal_iff : (a b : Option Text) → (hash_ptr_equal a b ≡ true) ↔ (a ≡ b)
unfolding hash_ptr_equal
hash_ptr_equal_iff none none = (λ _. refl, λ _. refl)
hash_ptr_equal_iff none (some b) = (λ h. cc, λ h. cc)
hash_ptr_equal_iff (some a) none = (λ h. cc, λ h. cc)
hash_ptr_equal_iff (some a) (some b) =
    (λ h. ap some ((text_eq_iff a b).0 h), λ e. (text_eq_iff a b).1 (ground arith))

module _ (hash : Text → Text) where
  -- The row follows the hash and carries the hash of its own fields.
  pub record Links (prev : Option Text) (r : Record) : Type 0 where
    pub follows : r.prev_hash ≡ prev
    pub sealed : compute_hash hash r.prev_hash r.entry ≡ r.row_hash

  -- Every row links to the one before it, and the first one to `prev`.
  pub data IsIntact : Option Text → List Record → Type 0 where
    done : {prev : Option Text} → IsIntact prev []
    more :
        {prev : Option Text} {r : Record} {rs : List Record}
        → Links prev r
        → IsIntact (some r.row_hash) rs
        → IsIntact prev (r ∷ rs)

  -- What the answer of the loop says of the rows: all of them link, or a first row that does not.
  pub data Verdict (prev : Option Text) (checked : ℕ) (rows : List Record) (v : VerifyResult)
      : Type 0 where
    intact :
        v.ok ≡ true
        → v.rows_checked ≡ checked + length rows
        → IsIntact prev rows
        → Verdict prev checked rows v
    broken :
        (good : List Record) (r : Record) (rest : List Record)
        → v.ok ≡ false
        → v.first_bad_id ≡ r.id
        → v.rows_checked ≡ checked + length good + 1
        → rows ≡ good ++ r ∷ rest
        → IsIntact prev good
        → ¬ Links (last_hash hash prev good) r
        → Verdict prev checked rows v

  extend :
      (prev : Option Text) (checked : ℕ) (r : Record) (rs : List Record) (v : VerifyResult)
      → Links prev r
      → Verdict (some r.row_hash) (checked + 1) rs v
      → Verdict prev checked (r ∷ rs) v
  unfolding last_hash
  extend prev checked r rs v l (intact o n i) = intact o (omega arith) (more l i)
  extend prev checked r rs v l (broken good b rest o first n splits i no_link) =
      broken (r ∷ good) b rest o first (omega arith) (ap (λ t. r ∷ t) splits) (more l i) no_link

  verify_from-Verdict :
      (prev : Option Text) (checked : ℕ) (rows : List Record)
      → Verdict prev checked rows (verify_from hash prev checked rows)
  unfolding verify_from last_hash
  verify_from-Verdict prev checked [] = intact refl (omega arith) done
  verify_from-Verdict prev checked (r ∷ rs) = elim (Bool-cases (hash_ptr_equal r.prev_hash prev)) [
    | inr e ↦ rw e (
        broken [] r rs refl refl (omega arith) refl done
          (λ l. cc ((hash_ptr_equal_iff r.prev_hash prev).1 l.follows)))
    | inl e ↦ rw e (elim (Bool-cases (text_eq (compute_hash hash r.prev_hash r.entry) r.row_hash)) [
      | inr e' ↦ rw e' (
          broken [] r rs refl refl (omega arith) refl done
            (λ l. cc ((text_eq_iff (compute_hash hash r.prev_hash r.entry) r.row_hash).1 l.sealed)))
      | inl e' ↦ rw e' (
          extend prev checked r rs (verify_from hash (some r.row_hash) (checked + 1) rs)
            (record {
              follows = (hash_ptr_equal_iff r.prev_hash prev).0 e;
              sealed = (text_eq_iff (compute_hash hash r.prev_hash r.entry) r.row_hash).0 e';
            })
            (verify_from-Verdict (some r.row_hash) (checked + 1) rs))
    ])
  ]

  -- `VerifyChain` answers OK, with the number of rows, exactly where every row links to the row
  -- before it and carries the hash of its own fields; and otherwise the id of the first row that
  -- does not, with the number of rows up to it.
  pub verify_chain-Verdict : (rows : List Record) → Verdict none 0 rows (verify_chain hash rows)
  unfolding verify_chain
  verify_chain-Verdict rows = verify_from-Verdict none 0 rows

  IsIntact-concat :
      (prev : Option Text) (rows : List Record) (r : Record)
      → IsIntact prev rows
      → Links (last_hash hash prev rows) r
      → IsIntact prev (rows ++ r ∷ [])
  unfolding last_hash
  IsIntact-concat prev [] r i l = more l done
  IsIntact-concat prev (x ∷ rows) r (more l' i) l =
      more l' (IsIntact-concat (some x.row_hash) rows r i l)

  -- Appending keeps an intact log intact, where the database gives the detail back as it was
  -- hashed.
  pub append-IsIntact :
      (stored : Text → Text) (id : ℕ) (e : Entry) (rows : List Record)
      → stored (with_detail e).detail ≡ (with_detail e).detail
      → IsIntact none rows
      → IsIntact none (append hash stored id e rows)
  unfolding append
  append-IsIntact stored id e rows same i =
      IsIntact-concat none rows (appended hash stored id e rows) i (record {
        follows = unfold appended in refl;
        sealed =
            unfold appended in
            ap
              (λ d.
                compute_hash hash (last_hash hash none rows)
                  (record (with_detail e) { detail = d }))
              same;
      })
