-- ===== src/Retention/Members.antt =====
-- A target of the request (`same_target`) and its place in a list of targets.
use cairnobs.Base.{
  true, List, [], ◌∷◌, ◌++◌, ◌≡◌, refl, sym, ap, inl, inr, arith, any, Split, Bool-cases,
  text_eq_iff,
}
use cairnobs.Retention.Targets.{HostService, same_target}

pub same_target-eq : (a b : HostService) → same_target a b ≡ true → a ≡ b
same_target-eq a b h = cc (
  (text_eq_iff a.host b.host).0 (ground (arith, h)),
  (text_eq_iff a.service b.service).0 (ground (arith, h)),
)

pub any-Split :
    (t : HostService) (ts : List HostService) → any (same_target t) ts ≡ true → Split ts t
unfolding any
any-Split t [] h = absurd (ground (arith, h))
any-Split t (x ∷ ts) h = elim (Bool-cases (same_target t x)) [
  | inl e ↦ record {
    before = [];
    after = ts;
    split = ap (λ (y : HostService). y ∷ ts) (sym (same_target-eq t x e));
  }
  | inr e ↦
      let rest = any-Split t ts (rw e at h) in
      record { before = x ∷ rest.before; after = rest.after; split = ap (λ l. x ∷ l) rest.split }
]

same_target_refl : (t : HostService) → same_target t t ≡ true
same_target_refl t =
    rw ((text_eq_iff t.host t.host).1 refl) ((text_eq_iff t.service t.service).1 refl)

any-middle :
    (t : HostService) (before after : List HostService)
    → any (same_target t) (before ++ t ∷ after) ≡ true
unfolding any
any-middle t [] after = rw (same_target_refl t) refl
any-middle t (x ∷ before) after = ground (arith, any-middle t before after)

pub Split-any :
    (t : HostService) (ts : List HostService) → Split ts t → any (same_target t) ts ≡ true
Split-any t ts s = rw s.split (any-middle t s.before s.after)
