-- ===== src/Lifecycle/Snapshot.antt =====
-- The rows of kb_builds while nothing is deleted.
use superkb.Base.{ℕ, ◌≡◌, refl, sym, subst, ◌∙◌, ap, some, ◌==◌, Bool-cases, inl, inr, ==_iff}
use superkb.Domain.{Build, BuildStatus, ready}
use superkb.Lifecycle.Steps.{
  ◌⟶◌, not-⟶-ready, Grow, new_document, new_kb, new_build, new_member, enable, disable, advance,
  vote, applied, Reach, Reach-keeps,
}
use superkb.Postgres.Tables.{Db, find_build, insert_document, set_build, update_build}
use mathlib.Core.Option.{some-injective}
use superkb.Postgres.Tables.Others.{
  member_same, vote_same, applied_same, builds-insert_kb, builds-update_kb,
}
use superkb.Postgres.Tables.Laws.{find_build-insert_found, find_build-update_build}

-- any number of steps of a status
infix 40 ◌⟶*◌
pub data ◌⟶*◌ : BuildStatus → BuildStatus → Type 0 where
  stay : {s : BuildStatus} → s ⟶* s
  go : {s t u : BuildStatus} → s ⟶* t → t ⟶ u → s ⟶* u

⟶*-trans : {s t u : BuildStatus} → s ⟶* t → t ⟶* u → s ⟶* u
⟶*-trans p stay = p
⟶*-trans p (go q r) = go (⟶*-trans p q) r

-- A build that is ready stays ready.
pub ready-absorbs : {s t : BuildStatus} → s ⟶* t → s ≡ ready → t ≡ ready
ready-absorbs stay e = e
ready-absorbs (go {t = t} {u = u} p r) e = absurd (not-⟶-ready t u (ready-absorbs p e) r)

-- The row `new` is a later state of the row `old`.
pub record Continues (old new : Build) : Type 0 where
  pub id : new.id ≡ old.id
  pub owner : new.knowledge_base_id ≡ old.knowledge_base_id
  pub bank : new.bank_id ≡ old.bank_id
  pub count : new.document_count ≡ old.document_count
  pub created : new.created_at ≡ old.created_at
  pub status : old.status ⟶* new.status

Continues-refl : (b : Build) → Continues b b
Continues-refl b = record {
  id = refl;
  owner = refl;
  bank = refl;
  count = refl;
  created = refl;
  status = stay;
}

Continues-trans : {a b c : Build} → Continues a b → Continues b c → Continues a c
Continues-trans p q = record {
  id = q.id ∙ p.id;
  owner = q.owner ∙ p.owner;
  bank = q.bank ∙ p.bank;
  count = q.count ∙ p.count;
  created = q.created ∙ p.created;
  status = ⟶*-trans p.status q.status;
}

-- an UPDATE of the row, at the status that it has
Continues-set_build :
    (new old row : Build)
    → old ≡ row
    → old.status ⟶ new.status
    → new.document_count ≡ old.document_count
    → Continues row (set_build new row)
Continues-set_build new old row e t c = record {
  id = refl;
  owner = refl;
  bank = refl;
  count = c ∙ ap (λ (r : Build). r.document_count) e;
  created = refl;
  status = go stay (subst (λ (r : Build). r.status ⟶ new.status) e t);
}

-- The build of id `i` is in the table, as a later state of `b`.
pub record Persists (i : ℕ) (b : Build) (db : Db) : Type 0 where
  pub row : Build
  pub found : find_build i db.kb_builds ≡ some row
  pub later : Continues b row

Persists-same :
    {i : ℕ} {b : Build} {c d : Db} → d.kb_builds ≡ c.kb_builds → Persists i b c → Persists i b d
Persists-same {i} e p = record {
  row = p.row;
  found = ap (find_build i) e ∙ p.found;
  later = p.later;
}

update_build-Persists :
    (i : ℕ) (b new old : Build) (db : Db)
    → find_build new.id db.kb_builds ≡ some old
    → old.status ⟶ new.status
    → new.document_count ≡ old.document_count
    → Persists i b db
    → Persists i b (update_build new db)
update_build-Persists i b new old db h t c p = elim (Bool-cases (i == new.id)) [
  | inl same ↦
      let e : old ≡ p.row = some-injective _ _ (
        sym h ∙ (ap (λ n. find_build n db.kb_builds) (sym ((==_iff i new.id).0 same)) ∙ p.found)) in
      record {
        row = set_build new p.row;
        found = rw (find_build-update_build, same, p.found);
        later = Continues-trans p.later (Continues-set_build new old p.row e t c);
      }
  | inr other ↦ record {
    row = p.row;
    found = rw (find_build-update_build, other) p.found;
    later = p.later;
  }
]

Grow-Persists : (i : ℕ) (b : Build) (c d : Db) → Grow c d → Persists i b c → Persists i b d
Grow-Persists i b c d (new_document _ _) p = unfold insert_document in Persists-same {c = c} refl p
Grow-Persists i b c d (new_kb k _ _ _) p = Persists-same (builds-insert_kb c k) p
Grow-Persists i b c d (new_build b' _ _ _) p = record {
  row = p.row;
  found = find_build-insert_found c i b' p.row p.found;
  later = p.later;
}
Grow-Persists i b c d (new_member kb doc _ _) p = Persists-same (member_same c kb doc).1 p
Grow-Persists i b c d (enable new _ _ _ _ _) p = Persists-same (builds-update_kb c new) p
Grow-Persists i b c d (disable new _ _ _) p = Persists-same (builds-update_kb c new) p
Grow-Persists i b c d (advance new {old} h t n) p = update_build-Persists i b new old c h t n p
Grow-Persists i b c d (vote f _) p = Persists-same (vote_same c f).1 p
Grow-Persists i b c d (applied kb memory text _) p =
    Persists-same (applied_same c kb memory text).1 p

pub Reach-Persists :
    (i : ℕ) (b : Build) (c d : Db)
    → Reach Grow c d
    → find_build i c.kb_builds ≡ some b
    → Persists i b d
Reach-Persists i b c d r h =
    Reach-keeps (Persists i b) (Grow-Persists i b) r
      (record { row = b; found = h; later = Continues-refl b })
