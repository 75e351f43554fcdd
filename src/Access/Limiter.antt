-- ===== src/Access/Limiter.antt =====
-- The sliding-window login limiter (api/localauth/ratelimit.go: `allow`). The attempts of one key are
-- a list of times; another key's list is not touched. The mutex makes calls run one after the other.
use cairnobs.Base.{
  ℕ, ◌+◌, ◌≤◌, ◌&&◌, Bool, true, false, ap, Bool-cases, inl, inr, List, [], ◌∷◌, ◌++◌,
  if◌then◌else◌, leb, ltb, length, Text, text_eq, text_eq_iff, ◌≡◌, refl, arith,
}

-- `attempts`, a Go map: a missing key reads as the empty list.
abbrev pub Attempts : Type 0
Attempts = Text → List ℕ

abbrev pub update : Attempts → Text → List ℕ → Attempts
update m k ts j = if text_eq j k then ts else m j

-- The loop that keeps the times after `now - window`; `t.After(cutoff)` is `now < t + window`.
unfoldable pub keep : ℕ → ℕ → List ℕ → List ℕ
keep window now [] = []
keep window now (t ∷ ts) =
    let rest = keep window now ts in if ltb now (t + window) then t ∷ rest else rest

-- The answer, and the map after the call.
unfoldable pub allow : ℕ → ℕ → Attempts → Text → ℕ → Bool × Attempts
allow max window attempts key now =
    let kept = keep window now (attempts key) in
    if leb max (length kept)
    then (false, update attempts key kept)
    else (true, update attempts key (kept ++ now ∷ []))

-- Attempts recorded for the key that lie in the window that ends at `now`.
unfoldable pub recent : ℕ → ℕ → List ℕ → ℕ
recent window now [] = 0
recent window now (t ∷ ts) = (if ltb now (t + window) then 1 else 0) + recent window now ts

length-keep : (window now : ℕ) (ts : List ℕ) → length (keep window now ts) ≡ recent window now ts
unfolding keep recent
length-keep window now [] = refl
length-keep window now (t ∷ ts) = ground (arith, length-keep window now ts)

recent-keep :
    (window before now : ℕ) (ts : List ℕ)
    → before ≤ now
    → recent window now (keep window before ts) ≡ recent window now ts
unfolding keep recent
recent-keep window before now [] h = refl
recent-keep window before now (t ∷ ts) h = ground (arith, recent-keep window before now ts)

recent-snoc :
    (window now t : ℕ) (ts : List ℕ)
    → recent window now (ts ++ t ∷ [])
      ≡ recent window now ts + (if ltb now (t + window) then 1 else 0)
unfolding recent
recent-snoc window now t [] = omega arith
recent-snoc window now t (u ∷ ts) = omega (arith, recent-snoc window now t ts)

pub record Attempt : Type 0 where
  pub key : Text
  pub time : ℕ

-- The calls end at a time no later than `now`, and the clock never goes back between them; the
-- newest call comes first.
abbrev pub InOrder : ℕ → List Attempt → Type 0
InOrder now [] = Unit
InOrder now (a ∷ older) = (a.time ≤ now) × InOrder a.time older

module _ (max window : ℕ) where
  -- The map of a limiter that begins empty, after the calls.
  unfoldable pub after_calls : List Attempt → Attempts
  after_calls [] = λ _. []
  after_calls (a ∷ older) = (allow max window (after_calls older) a.key a.time).1

  -- How many calls of the key were allowed less than one window before `now`, by the answers that
  -- the calls got.
  unfoldable pub granted : Text → ℕ → List Attempt → ℕ
  unfolding after_calls
  granted key now [] = 0
  granted key now (a ∷ older) =
      (if text_eq key a.key
          && (allow max window (after_calls older) a.key a.time).0
          && ltb now (a.time + window)
        then 1
        else 0)
      + granted key now older

  recent-update :
      (attempts : Attempts) (k key : Text) (before now : ℕ)
      → before ≤ now
      → recent window now ((allow max window attempts k before).1 key)
        ≡ recent window now (attempts key)
          + (if text_eq key k && (allow max window attempts k before).0 && ltb now (before + window)
              then 1
              else 0)
  unfolding allow
  recent-update attempts k key before now h = elim (Bool-cases (text_eq key k)) [
    | inr n ↦ ground (arith, n)
    | inl e ↦ ground (
      arith,
      e,
      ap attempts ((text_eq_iff key k).0 e),
      recent-keep window before now (attempts k) h,
      recent-snoc window now before (keep window before (attempts k)),
    )
  ]

  -- What the map holds of a key counts the calls that were allowed.
  recent-granted :
      (calls : List Attempt) (key : Text) (last now : ℕ)
      → InOrder last calls
      → last ≤ now
      → recent window now (after_calls calls key) ≡ granted key now calls
  unfolding after_calls granted recent
  recent-granted [] key last now o h = refl
  recent-granted (a ∷ older) key last now o h = omega (
    arith,
    recent-update (after_calls older) a.key key a.time now (omega (arith, o.0)),
    recent-granted older key a.time now o.1 (omega (arith, o.0)),
  )

  -- After any calls, of any keys, a call is allowed exactly when fewer than `max` calls of its own key
  -- were allowed less than one window before it. The clock must not go back.
  pub allow-granted :
      (calls : List Attempt) (key : Text) (now : ℕ)
      → InOrder now calls
      → (allow max window (after_calls calls) key now).0 ≡ ltb (granted key now calls) max
  unfolding allow
  allow-granted calls key now o = ground (
    arith,
    length-keep window now (after_calls calls key),
    recent-granted calls key now now o (omega arith),
  )
