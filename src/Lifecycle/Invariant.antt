-- ===== src/Lifecycle/Invariant.antt =====
-- Knowledge bases and the builds that they serve, over sequences of steps of the specification.
use superkb.Base.{
  ℕ, ◌≡◌, ◌⊎◌, refl, sym, ◌∙◌, ap, subst, false, some, arith, ◌==◌, Bool-cases, Option-cases, inl,
  inr, ==_iff,
}
use mathlib.Core.Option.{none-ne-some, some-injective}
use superkb.Domain.{KnowledgeBase, Build, ready}
use superkb.Lifecycle.Steps.{
  ◌⟶◌, not-⟶-ready, Grow, new_document, new_kb, new_build, new_member, enable, disable, advance,
  vote, applied, Step, grow, drop_document, drop_kb, drop_member, Reach, Reach-keeps,
}
use superkb.Postgres.Tables.{
  Db, find_kb, find_build, insert_document, insert_kb, insert_build, delete_document, delete_kb,
  update_kb, update_build, delete_member,
}
use superkb.Postgres.Tables.Others.{
  member_same, vote_same, applied_same, builds-insert_kb, builds-update_kb,
}
use superkb.Postgres.Tables.Laws.{
  find_kb-insert_new, find_kb-insert_found, find_kb-delete_kb, find_kb-update_kb,
  find_build-insert_found, find_build-delete_kb, find_build-update_build,
}

-- The active build of the knowledge base of id `i` is ready, and its own.
pub record ServesReady (i j : ℕ) (db : Db) : Type 0 where
  pub build : Build
  pub found : find_build j db.kb_builds ≡ some build
  pub owner : build.knowledge_base_id ≡ i
  pub done : build.status ≡ ready

pub record IsConsistent (db : Db) : Type 0 where
  pub active :
      (i j : ℕ) (k : KnowledgeBase)
      → find_kb i db.knowledge_bases ≡ some k
      → k.active_build_id ≡ some j
      → ServesReady i j db

ServesReady-same :
    {a b : Db} {i j : ℕ} → b.kb_builds ≡ a.kb_builds → ServesReady i j a → ServesReady i j b
ServesReady-same {j} e s = record {
  build = s.build;
  found = subst (λ l. find_build j l ≡ some s.build) (sym e) s.found;
  owner = s.owner;
  done = s.done;
}

-- tables with the same knowledge bases and builds
same_rows :
    {a b : Db}
    → b.knowledge_bases ≡ a.knowledge_bases
    → b.kb_builds ≡ a.kb_builds
    → IsConsistent a
    → IsConsistent b
same_rows ek eb h = record {
  active = λ i j k hk hj.
      ServesReady-same eb (h.active i j k (subst (λ l. find_kb i l ≡ some k) ek hk) hj);
}

-- a ready build stays where another row of the table is inserted or updated
ServesReady-insert_build :
    (b : Build) (db : Db) (i j : ℕ) → ServesReady i j db → ServesReady i j (insert_build b db)
ServesReady-insert_build b db i j s = record {
  build = s.build;
  found = find_build-insert_found db j b s.build s.found;
  owner = s.owner;
  done = s.done;
}

ServesReady-update_build :
    (new old : Build) (db : Db) (i j : ℕ)
    → find_build new.id db.kb_builds ≡ some old
    → old.status ⟶ new.status
    → ServesReady i j db
    → ServesReady i j (update_build new db)
ServesReady-update_build new old db i j h t s = elim (Bool-cases (j == new.id)) [
  | inl same ↦
      let e : some s.build ≡ some old =
        sym s.found ∙ ap (λ n. find_build n db.kb_builds) ((==_iff j new.id).0 same) ∙ h in
      absurd (not-⟶-ready old.status new.status (cc (e, s.done)) t)
  | inr other ↦ record {
    build = s.build;
    found = rw (find_build-update_build, other) s.found;
    owner = s.owner;
    done = s.done;
  }
]

ServesReady-delete_kb :
    (n : ℕ) (db : Db) (i j : ℕ)
    → (i == n) ≡ false
    → ServesReady i j db
    → ServesReady i j (delete_kb n db)
ServesReady-delete_kb n db i j ne s = record {
  build = s.build;
  found = find_build-delete_kb db j n s.build s.found (rw (s.owner, ne));
  owner = s.owner;
  done = s.done;
}

-- the row of a knowledge base behind an UPDATE: the new columns, or a row that was there
update_kb-cases :
    (new : KnowledgeBase) (db : Db) (i : ℕ) (k : KnowledgeBase)
    → find_kb i (update_kb new db).knowledge_bases ≡ some k
    → ((i ≡ new.id) × (k.active_build_id ≡ new.active_build_id))
      ⊎ (find_kb i db.knowledge_bases ≡ some k)
update_kb-cases new db i k h = ground (arith, find_kb-update_kb db i new)

insert_kb-cases :
    (new : KnowledgeBase) (db : Db) (i : ℕ) (k : KnowledgeBase)
    → find_kb i (insert_kb new db).knowledge_bases ≡ some k
    → (k ≡ new) ⊎ (find_kb i db.knowledge_bases ≡ some k)
insert_kb-cases new db i k h = elim (Option-cases (find_kb i db.knowledge_bases)) [
  | inl fresh ↦ inl (ground (arith, find_kb-insert_new db i new fresh))
  | inr (o, e) ↦ inr (e ∙ (sym (find_kb-insert_found db i new o e) ∙ h))
]

-- what Enable and Disable write
update_kb-IsConsistent :
    (new : KnowledgeBase) (db : Db)
    → ((j : ℕ) → new.active_build_id ≡ some j → ServesReady new.id j db)
    → IsConsistent db
    → IsConsistent (update_kb new db)
update_kb-IsConsistent new db serves h = record {
  active = λ i j k hk hj.
      ServesReady-same (builds-update_kb db new) (elim (update_kb-cases new db i k hk) [
        | inl (same, act) ↦ subst (λ n. ServesReady n j db) (sym same) (serves j (sym act ∙ hj))
        | inr old ↦ h.active i j k old hj
      ]);
}

-- One statement of the specification keeps the invariant, whatever it is.
Grow-IsConsistent : (a b : Db) → Grow a b → IsConsistent a → IsConsistent b
Grow-IsConsistent a b (new_document d _) h = unfold insert_document in same_rows refl refl h
Grow-IsConsistent a b (new_kb k _ _ idle) h = record {
  active = λ i j k' hk hj.
      ServesReady-same {a = a} (builds-insert_kb a k) (elim (insert_kb-cases k a i k' hk) [
        | inl e ↦ absurd (
            none-ne-some j
              (sym idle ∙ (sym (ap (λ (r : KnowledgeBase). r.active_build_id) e) ∙ hj)))
        | inr old ↦ h.active i j k' old hj
      ]);
}
Grow-IsConsistent a b (new_build b' _ _ _) h = record {
  active = λ i j k hk hj.
      ServesReady-insert_build b' a i j (h.active i j k (unfold insert_build in hk) hj);
}
Grow-IsConsistent a b (new_member kb doc _ _) h =
    let same = member_same a kb doc in same_rows same.0 same.1 h
Grow-IsConsistent a b (enable new {b = b'} hk hb owner done act) h =
    update_kb-IsConsistent new a
      (λ j e. record {
        build = b';
        found =
            subst (λ n. find_build n a.kb_builds ≡ some b') (some-injective _ _ (sym act ∙ e)) hb;
        owner = owner;
        done = done;
      })
      h
Grow-IsConsistent a b (disable new {old} hk off act) h =
    update_kb-IsConsistent new a (λ j e. h.active new.id j old hk (sym act ∙ e)) h
Grow-IsConsistent a b (advance new {old} hb t _) h = record {
  active = λ i j k hk hj.
      ServesReady-update_build new old a i j hb t (h.active i j k (unfold update_build in hk) hj);
}
Grow-IsConsistent a b (vote f _) h = let same = vote_same a f in same_rows same.0 same.1 h
Grow-IsConsistent a b (applied kb memory text _) h =
    let same = applied_same a kb memory text in same_rows same.0 same.1 h

delete_kb-cases :
    (n : ℕ) (db : Db) (i : ℕ) (k : KnowledgeBase)
    → find_kb i (delete_kb n db).knowledge_bases ≡ some k
    → ((i == n) ≡ false) × (find_kb i db.knowledge_bases ≡ some k)
delete_kb-cases n db i k h = ground (arith, find_kb-delete_kb db i n)

Step-IsConsistent : (a b : Db) → Step a b → IsConsistent a → IsConsistent b
Step-IsConsistent a b (grow s) h = Grow-IsConsistent a b s h
Step-IsConsistent a b (drop_document i) h = unfold delete_document in same_rows refl refl h
Step-IsConsistent a b (drop_kb n) h = record {
  active = λ i j k hk hj.
      let (ne, old) = delete_kb-cases n a i k hk in
      ServesReady-delete_kb n a i j ne (h.active i j k old hj);
}
Step-IsConsistent a b (drop_member kb doc) h = unfold delete_member in same_rows refl refl h

pub Reach-IsConsistent : {a b : Db} → Reach Step a b → IsConsistent a → IsConsistent b
Reach-IsConsistent = Reach-keeps IsConsistent Step-IsConsistent
