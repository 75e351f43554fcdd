-- ===== src/Agents/Current.antt =====
-- What the statements on the table do to the override that `Get` shows of an agent.
use cairnobs.Agents.Handlers.{Fleet, current_override, agent_override, fleet_after}
use cairnobs.Agents.Override.{ConfigOverride}
use cairnobs.Agents.Store
use cairnobs.Agents.Store.{
  AgentRow, Agents, AgentError, not_found, store_failed, is_agent, scan_found, shown_override,
  with_override, without_override, with_command, update_agent,
}
use cairnobs.Base.{
  ℕ, true, Option, none, some, ◌≡◌, refl, sym, ap, subst, ◌∙◌, ◌⊎◌, inl, inr, arith, any, Text,
  text_eq_iff, find_if, update_if, find_if-update_if-found, find_if-update_if-none, find_if-holds,
  Bool-cases, if◌then◌else◌,
}
use cairnobs.Base.Results.{OnOk}

-- What the database holds, whether or not the store answers.
abbrev pub current : Text → Text → Fleet → Option ConfigOverride
current tenant_id host fleet = current_override true tenant_id host fleet

abbrev shown : AgentRow → Option ConfigOverride
shown row = shown_override row.desired_override_version row.desired_override

abbrev shown_found : Option AgentRow → Option ConfigOverride
shown_found none = none
shown_found (some row) = shown row

current-shown :
    (tenant_id host : Text) (fleet : Fleet)
    → current tenant_id host fleet ≡ shown_found (find_if (is_agent tenant_id host) fleet.agents)
unfolding current_override Store.get
current-shown tenant_id host fleet = by_row (find_if (is_agent tenant_id host) fleet.agents)
  where
    by_row : (o : Option AgentRow) → agent_override (scan_found o) ≡ shown_found o
    by_row none = refl
    by_row (some row) = refl

pub same_agent :
    (t h t' h' : Text) (row : AgentRow)
    → is_agent t' h' row ≡ true
    → is_agent t h row ≡ true
    → (t' ≡ t) × (h' ≡ h)
same_agent t h t' h' row e k = (
  sym ((text_eq_iff row.tenant_id t').0 (ground (arith, e)))
      ∙ (text_eq_iff row.tenant_id t).0 (ground (arith, k)),
  sym ((text_eq_iff row.host h').0 (ground (arith, e)))
      ∙ (text_eq_iff row.host h).0 (ground (arith, k)),
)

-- What an update that leaves the agents' names does to the override on show.
pub current-update :
    (t h t' h' : Text) (change : AgentRow → AgentRow) (fleet : Fleet)
    → ((x : AgentRow) → is_agent t' h' (change x) ≡ is_agent t' h' x)
    → (current t' h' (record fleet { agents = update_if (is_agent t h) change fleet.agents })
        ≡ current t' h' fleet)
      ⊎ ((x : AgentRow) × (t' ≡ t)
          × (h' ≡ h)
          × (current t' h' fleet ≡ shown x)
          × (current t' h' (record fleet { agents = update_if (is_agent t h) change fleet.agents })
              ≡ shown (change x)))
current-update t h t' h' change fleet keeps =
    by_row (find_if (is_agent t' h') (update_if (is_agent t h) change fleet.agents)) refl
  where
    after : Fleet
    after = record fleet { agents = update_if (is_agent t h) change fleet.agents }

    by_row :
        (o : Option AgentRow)
        → find_if (is_agent t' h') (update_if (is_agent t h) change fleet.agents) ≡ o
        → (current t' h' after ≡ current t' h' fleet)
          ⊎ ((x : AgentRow) × (t' ≡ t)
              × (h' ≡ h)
              × (current t' h' fleet ≡ shown x)
              × (current t' h' after ≡ shown (change x)))
    by_row none e = inl (
        current-shown t' h' after
        ∙ ap shown_found e
        ∙ sym (
            ap shown_found
              (find_if-update_if-none (is_agent t' h') (is_agent t h) change fleet.agents keeps e))
        ∙ sym (current-shown t' h' fleet))
    by_row (some y) e =
        let f =
          find_if-update_if-found (is_agent t' h') (is_agent t h) change fleet.agents y keeps e in
        let before = current-shown t' h' fleet ∙ ap shown_found f.1 in
        let now = current-shown t' h' after ∙ ap shown_found e in
        elim (Bool-cases (is_agent t h f.0)) [
          | inl b ↦
              let s =
                same_agent t h t' h' f.0 (find_if-holds (is_agent t' h') fleet.agents f.0 f.1) b in
              inr (
                f.0,
                s.0,
                s.1,
                before,
                now ∙ ap shown (f.2 ∙ ap (λ c. if c then change f.0 else f.0) b),
              )
          | inr b ↦
              inl (now ∙ ap shown (f.2 ∙ ap (λ c. if c then change f.0 else f.0) b) ∙ sym before)
        ]

-- An agent whose override is taken away shows none.
pub current-without_override :
    (t h : Text) (fleet : Fleet)
    → current t h (record fleet { agents = update_if (is_agent t h) without_override fleet.agents })
      ≡ none
current-without_override t h fleet =
    current-shown t h after ∙ by_row (find_if (is_agent t h) after.agents) refl
  where
    after : Fleet
    after = record fleet { agents = update_if (is_agent t h) without_override fleet.agents }

    by_row : (o : Option AgentRow) → find_if (is_agent t h) after.agents ≡ o → shown_found o ≡ none
    by_row none e = refl
    by_row (some y) e =
        let f =
          find_if-update_if-found (is_agent t h) (is_agent t h) without_override fleet.agents y
            (λ _. refl) e in
        ap shown (
          f.2
          ∙ ap (λ c. if c then without_override f.0 else f.0)
              (find_if-holds (is_agent t h) fleet.agents f.0 f.1))

-- A relation between the override of every agent in the fleet s0 and the one that it has now.
module _ (R : Option ConfigOverride → Option ConfigOverride → Type 0) (s0 : Fleet) where
  abbrev pub Kept : Fleet → Type 0
  Kept s = (t h : Text) → R (current t h s0) (current t h s)

  -- An update keeps it, where the agent that it changes keeps it.
  Kept-update :
      (t h : Text) (change : AgentRow → AgentRow) (s : Fleet)
      → ((t' h' : Text) (x : AgentRow) → is_agent t' h' (change x) ≡ is_agent t' h' x)
      → ((x : AgentRow) → current t h s ≡ shown x → R (current t h s0) (shown (change x)))
      → Kept s
      → OnOk (λ p. Kept p.1) (fleet_after s (update_agent t h change s.agents))
  unfolding update_agent
  Kept-update t h change s keeps goal v = elim (Bool-cases (any (is_agent t h) s.agents)) [
    | inl b ↦ rw b (λ t' h'. by_agent t' h' (current-update t h t' h' change s (keeps t' h')))
    | inr b ↦ rw b tt
  ]
    where
      after : Fleet
      after = record s { agents = update_if (is_agent t h) change s.agents }

      by_agent :
          (t' h' : Text)
          → (current t' h' after ≡ current t' h' s)
            ⊎ ((x : AgentRow) × (t' ≡ t)
                × (h' ≡ h)
                × (current t' h' s ≡ shown x)
                × (current t' h' after ≡ shown (change x)))
          → R (current t' h' s0) (current t' h' after)
      by_agent t' h' (inl e) = rw e (v t' h')
      by_agent t' h' (inr (x, i, j, e, k)) = rw k (
          subst (λ a. R (current a h' s0) (shown (change x))) (sym i)
            (subst (λ b. R (current t b s0) (shown (change x))) (sym j)
              (goal x (
                subst (λ a. current a h s ≡ shown x) i
                  (subst (λ b. current t' b s ≡ shown x) j e)))))

  pub set_override-Kept :
      (t h : Text) (o : ConfigOverride) (version by : Text) (s : Fleet)
      → R (current t h s0) (some o)
      → Kept s
      → OnOk (λ p. Kept p.1) (fleet_after s (Store.set_override t h o version by s.agents))
  unfolding Store.set_override
  set_override-Kept t h o version by s r =
      Kept-update t h (with_override o version by) s (λ _ _ _. refl) (λ _ _. r)

  pub clear_override-Kept :
      (t h : Text) (s : Fleet)
      → R (current t h s0) none
      → Kept s
      → OnOk (λ p. Kept p.1) (fleet_after s (Store.clear_override t h s.agents))
  unfolding Store.clear_override
  clear_override-Kept t h s r = Kept-update t h without_override s (λ _ _ _. refl) (λ _ _. r)

  pub issue_command-Kept :
      (t h command : Text) (now : ℕ) (by : Text) (s : Fleet)
      → Kept s
      → OnOk (λ p. Kept p.1) (fleet_after s (Store.issue_command t h command now by s.agents))
  unfolding Store.issue_command
  issue_command-Kept t h command now by s v =
      Kept-update t h (with_command command now by) s (λ _ _ _. refl)
        (λ x e. subst (R (current t h s0)) e (v t h)) v
