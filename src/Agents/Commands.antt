-- ===== src/Agents/Commands.antt =====
-- The commands that wait for agents, seen from outside: one slot for each agent that is known. The API's
-- IssueCommand fills the slot, and the ingest service's CheckIn hands out what is in it and empties it.
use cairnobs.Agents.Registry.{
  AgentCheckIn, AgentOverride, check_in, check_in_as, checked_in, new_row, pending_of, upsert,
  with_command_of,
}
use cairnobs.Agents.Store.{
  AgentRow, Agents, AgentError, not_found, store_failed, is_agent, issue_command, or_default,
  text_or_empty, update_agent, with_command,
}
use cairnobs.Base.{
  ℕ, Bool, true, false, ◌&&◌, [], ◌∷◌, ◌++◌, Option, none, some, ◌≡◌, refl, sym, ap, ◌∙◌, ◌⊎◌, inl,
  inr, arith, any, Text, text_eq, text_eq_iff, find_if, update_if, find_if-update_if-found,
  find_if-update_if-none, find_if-holds, find_if-append, Bool-cases, Option-cases, if◌then◌else◌,
  find_if-append-none, find_if-any, find_if-none,
}
use cairnobs.Base.Results.{Result, ok, err, ◌>>=◌, OnOk}

-- `none` for an agent that never checked in, and else its slot.
abbrev pub View : Type 0
View = Text → Text → Option (Option Text)

abbrev pub slot : Option AgentRow → Option (Option Text)
slot none = none
slot (some row) = some row.pending_command

abbrev pub view : Agents → View
view rows tenant_id host = slot (find_if (is_agent tenant_id host) rows)

abbrev pub is_same : Text → Text → Text → Text → Bool
is_same t h t' h' = text_eq t' t && text_eq h' h

-- The contract.
abbrev pub refilled : Option Text → Option (Option Text) → Option (Option Text)
refilled new none = none
refilled new (some old) = some new

abbrev pub issue_spec : Text → Text → Text → View → View
issue_spec t h command v t' h' =
    if is_same t h t' h' then refilled (some command) (v t' h') else v t' h'

abbrev pub check_in_spec : Text → Text → View → View
check_in_spec t h v t' h' = if is_same t h t' h' then some none else v t' h'

abbrev pub in_slot : Option (Option Text) → Text
in_slot none = []
in_slot (some c) = text_or_empty c

is_agent-is_same :
    (t h t' h' : Text) (row : AgentRow)
    → is_agent t' h' row ≡ true
    → is_agent t h row ≡ is_same t h t' h'
is_agent-is_same t h t' h' row e =
    ap (λ a. text_eq a t && text_eq row.host h)
      ((text_eq_iff row.tenant_id t').0 (ground (arith, e)))
    ∙ ap (λ a. text_eq t' t && text_eq a h) ((text_eq_iff row.host h').0 (ground (arith, e)))

update-view :
    (t h t' h' : Text) (change : AgentRow → AgentRow) (new : Option Text) (rows : Agents)
    → ((x : AgentRow) → is_agent t' h' (change x) ≡ is_agent t' h' x)
    → ((x : AgentRow) → (change x).pending_command ≡ new)
    → view (update_if (is_agent t h) change rows) t' h'
      ≡ (if is_same t h t' h' then refilled new (view rows t' h') else view rows t' h')
update-view t h t' h' change new rows keeps shows =
    by_row (find_if (is_agent t' h') (update_if (is_agent t h) change rows)) refl
  where
    by_row :
        (o : Option AgentRow)
        → find_if (is_agent t' h') (update_if (is_agent t h) change rows) ≡ o
        → slot (find_if (is_agent t' h') (update_if (is_agent t h) change rows))
          ≡ (if is_same t h t' h' then refilled new (view rows t' h') else view rows t' h')
    by_row none e =
        rw (e, find_if-update_if-none (is_agent t' h') (is_agent t h) change rows keeps e)
          (ground arith)
    by_row (some y) e =
        let f = find_if-update_if-found (is_agent t' h') (is_agent t h) change rows y keeps e in
        let s = is_agent-is_same t h t' h' f.0 (find_if-holds (is_agent t' h') rows f.0 f.1) in
        elim (Bool-cases (is_same t h t' h')) [
          | inl b ↦
              ap slot e
              ∙ ap (λ (r : AgentRow). some r.pending_command)
                  (f.2 ∙ ap (λ c. if c then change f.0 else f.0) (s ∙ b))
              ∙ ap (λ c. some c) (shows f.0)
              ∙ sym (
                  ap (λ c. if c then refilled new (view rows t' h') else view rows t' h') b
                  ∙ ap (λ o. refilled new (slot o)) f.1)
          | inr b ↦
              ap slot e
              ∙ ap (λ (r : AgentRow). some r.pending_command)
                  (f.2 ∙ ap (λ c. if c then change f.0 else f.0) (s ∙ b))
              ∙ sym (
                  ap (λ c. if c then refilled new (view rows t' h') else view rows t' h') b
                  ∙ ap slot f.1)
        ]

-- An agent that the table does not hold has no slot, and one that it holds has one.
view-none : (t h : Text) (rows : Agents) → any (is_agent t h) rows ≡ false → view rows t h ≡ none
view-none t h rows n = by_row (find_if (is_agent t h) rows) refl
  where
    by_row :
        (o : Option AgentRow)
        → find_if (is_agent t h) rows ≡ o
        → slot (find_if (is_agent t h) rows) ≡ none
    by_row none e = ap slot e
    by_row (some x) e = absurd (ground (arith, find_if-any (is_agent t h) rows x e, n))

view-some :
    (t h : Text) (rows : Agents)
    → any (is_agent t h) rows ≡ true
    → (old : Option Text) × (view rows t h ≡ some old)
view-some t h rows n = by_row (find_if (is_agent t h) rows) refl
  where
    by_row :
        (o : Option AgentRow)
        → find_if (is_agent t h) rows ≡ o
        → (old : Option Text) × (slot (find_if (is_agent t h) rows) ≡ some old)
    by_row none e = absurd (ground (arith, find_if-none (is_agent t h) rows e, n))
    by_row (some x) e = (x.pending_command, ap slot e)

view-is_same :
    (t h t' h' : Text) (rows : Agents) → is_same t h t' h' ≡ true → view rows t' h' ≡ view rows t h
view-is_same t h t' h' rows b =
    ap (λ a. view rows a h') ((text_eq_iff t' t).0 (ground (arith, b)))
    ∙ ap (λ a. view rows t a) ((text_eq_iff h' h).0 (ground (arith, b)))

-- The contract of IssueCommand.
abbrev pub IssueRefines : Text → Text → Text → ℕ → Text → Agents → Type 0
IssueRefines t h command now by rows =
    ((view rows t h ≡ none) × (issue_command t h command now by rows ≡ err not_found))
    ⊎ ((old : Option Text) × (view rows t h ≡ some old)
        × (after : Agents) × (issue_command t h command now by rows ≡ ok (tt, after))
        × ((t' h' : Text) → view after t' h' ≡ issue_spec t h command (view rows) t' h'))

-- The contract of CheckIn, with the flag of its transaction.
abbrev pub CheckInRefines : Text → ℕ → Text → AgentCheckIn → Agents → Type 0
CheckInRefines id now tenant_id info rows =
    (check_in false id now tenant_id info rows ≡ (err store_failed, rows))
    × OnOk (λ r. r.command ≡ in_slot (view rows (or_default tenant_id) info.host))
        (check_in true id now tenant_id info rows).0
    × ((t' h' : Text)
        → view (check_in true id now tenant_id info rows).1 t' h'
          ≡ check_in_spec (or_default tenant_id) info.host (view rows) t' h')

issue_command-IssueRefines :
    (t h command : Text) (now : ℕ) (by : Text) (rows : Agents)
    → IssueRefines t h command now by rows
unfolding issue_command update_agent
issue_command-IssueRefines t h command now by rows = elim (Bool-cases (any (is_agent t h) rows)) [
  | inl b ↦
      let s = view-some t h rows b in
      inr (
        s.0,
        s.1,
        update_if (is_agent t h) (with_command command now by) rows,
        rw b refl,
        λ t' h'.
            update-view t h t' h' (with_command command now by) (some command) rows (λ _. refl)
              (λ _. refl),
      )
  | inr b ↦ inl (view-none t h rows b, rw b refl)
]

new_row-view :
    (id t : Text) (info : AgentCheckIn) (now : ℕ) (t' h' : Text)
    → slot (find_if (is_agent t' h') (new_row id t info now ∷ []))
      ≡ (if is_same t info.host t' h' then some none else none)
unfolding find_if
new_row-view id t info now t' h' =
    ground (
      arith,
      text_eq_iff t t',
      text_eq_iff t' t,
      text_eq_iff info.host h',
      text_eq_iff h' info.host,
    )

upsert-view :
    (id t : Text) (info : AgentCheckIn) (now : ℕ) (rows : Agents) (t' h' : Text)
    → view (upsert id t info now rows) t' h' ≡ check_in_spec t info.host (view rows) t' h'
unfolding upsert
upsert-view id t info now rows t' h' = elim (Bool-cases (any (is_agent t info.host) rows)) [
  | inl b ↦ rw b (
      update-view t info.host t' h' (checked_in info now) none rows (λ _. refl) (λ _. refl)
      ∙ known b (Bool-cases (is_same t info.host t' h')))
  | inr b ↦ rw b (added b (Option-cases (find_if (is_agent t' h') rows)))
]
  where
    known :
        any (is_agent t info.host) rows ≡ true
        → (is_same t info.host t' h' ≡ true) ⊎ (is_same t info.host t' h' ≡ false)
        → (if is_same t info.host t' h' then refilled none (view rows t' h') else view rows t' h')
          ≡ check_in_spec t info.host (view rows) t' h'
    known b (inl e) =
        let s = view-some t info.host rows b in
        rw e (ap (refilled none) (view-is_same t info.host t' h' rows e ∙ s.1))
    known b (inr e) = rw e refl

    added :
        any (is_agent t info.host) rows ≡ false
        → (find_if (is_agent t' h') rows ≡ none)
          ⊎ ((x : AgentRow) × (find_if (is_agent t' h') rows ≡ some x))
        → slot (find_if (is_agent t' h') (rows ++ new_row id t info now ∷ []))
          ≡ check_in_spec t info.host (view rows) t' h'
    added b (inl e) =
        ap slot (find_if-append-none (is_agent t' h') rows (new_row id t info now ∷ []) e)
        ∙ new_row-view id t info now t' h'
        ∙ ap (λ o. if is_same t info.host t' h' then some none else slot o) (sym e)
    added b (inr (x, e)) =
        ap slot (find_if-append (is_agent t' h') rows (new_row id t info now ∷ []) x e)
        ∙ elim (Bool-cases (is_same t info.host t' h')) [
          | inl s ↦ absurd (
              ground (
                arith,
                sym (view-none t info.host rows b)
                    ∙ sym (view-is_same t info.host t' h' rows s)
                    ∙ ap slot e,
              ))
          | inr s ↦ rw s (sym (ap slot e))
        ]

command-slot : (o : Option AgentRow) → text_or_empty (pending_of o) ≡ in_slot (slot o)
command-slot none = refl
command-slot (some row) = refl

check_in-CheckInRefines :
    (id : Text) (now : ℕ) (tenant_id : Text) (info : AgentCheckIn) (rows : Agents)
    → CheckInRefines id now tenant_id info rows
unfolding check_in check_in_as
check_in-CheckInRefines id now tenant_id info rows =
    (refl, handed _, upsert-view id (or_default tenant_id) info now rows)
  where
    handed :
        (r : Result AgentError (Option AgentOverride))
        → OnOk
            (λ c. c.command ≡ in_slot (view rows (or_default tenant_id) info.host))
            (r
              >>= with_command_of
                  (pending_of (find_if (is_agent (or_default tenant_id) info.host) rows)))
    handed (ok o) = command-slot (find_if (is_agent (or_default tenant_id) info.host) rows)
    handed (err e) = tt

-- The table implements the slots. IssueCommand fails for an agent that is not known, and else fills its
-- slot and no other. A CheckIn hands out what is in the agent's slot, where it answers at all, and
-- leaves that slot empty and every other one as it was; one whose transaction fails changes nothing.
pub commands_refine :
    (rows : Agents) (t h command by id : Text) (now : ℕ) (info : AgentCheckIn)
    → IssueRefines t h command now by rows × CheckInRefines id now t info rows
commands_refine rows t h command by id now info =
    (issue_command-IssueRefines t h command now by rows, check_in-CheckInRefines id now t info rows)
