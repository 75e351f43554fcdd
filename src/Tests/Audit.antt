-- ===== src/Tests/Audit.antt =====
-- The audit log on fixed entries. The hash puts a byte before the text, so that it never collides
-- and is never empty.
use cairnobs.Audit.Chain.{IsIntact, Verdict, append-IsIntact, verify_chain-Verdict, done}
use cairnobs.Audit.Log.{Entry, Record, append, verify_chain, with_detail}
use cairnobs.Audit.Tamper.{Collision, append-reformatted}
use cairnobs.Base.{
  List, [], ◌∷◌, none, some, Text, codes, ◌≢◌, ◌⊎◌, if◌then◌else◌, ◌==◌, is_empty, refl,
}

abbrev hash : Text → Text
hash s = 1 ∷ s

abbrev login : Entry
login = record {
  tenant_id = codes "t1";
  user_id = some (codes "ann");
  source = codes "api";
  event_type = codes "login";
  query_text = none;
  row_count = none;
  duration_ms = some 12;
  status = codes "success";
  error_message = none;
  detail = codes "{\"a\":1}";
}

abbrev same_form : Text → Text
same_form s = s

-- Postgres writes a blank behind a colon.
abbrev spaced : Text → Text
spaced [] = []
spaced (c ∷ cs) = if c == b':' then c ∷ b' ' ∷ cs else c ∷ spaced cs

abbrev log : List Record
log = append hash same_form 1 login []

login-spaced : spaced (with_detail login).detail ≢ (with_detail login).detail
unfolding is_empty
login-spaced e = cc

verify_chain-Verdict_example : Verdict hash none 0 log (verify_chain hash log)
verify_chain-Verdict_example = verify_chain-Verdict hash log

append-IsIntact_example : IsIntact hash none log
append-IsIntact_example = append-IsIntact hash same_form 1 login [] refl done

append-reformatted_example : ¬ IsIntact hash none (append hash spaced 1 login []) ⊎ Collision hash
append-reformatted_example = append-reformatted hash spaced 1 login [] login-spaced
