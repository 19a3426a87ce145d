-- ===== src/Platform/TopupLeadCredits/Effect.antt =====
-- internal/platform/app/command/topup_lead_credits.go: what a top-up has done when it answers.
use leadkart_go.Base.{
  ◌≡◌, refl, sym, ap, subst, ◌∙◌, ◌⊎◌, inl, inr, Bool, true, false, not, ◌&&◌, List, [], ◌∷◌,
  Option, none, some, Result, ok, err, fail_if, map_err, bind_inversion, map_err_inversion,
  Result-cases, Bool-cases, is_some, All, arith,
}
use leadkart_go.Base.Int64.{ℤ, pos, ◌≤ℤ◌, leb_ℤ, add64}
use leadkart_go.Base.Text.{Str, str_eq, str_eq_refl}
use leadkart_go.Base.Clock.{Time}
use leadkart_go.Platform.LeadCredit.{LeadCredit, new_for_tenant, topup}
use leadkart_go.Platform.PurchaseLead.{
  Database, Storage, Attempt, put_credit, at_version, write_row, write_credit, bumped, inserted,
  upsert_with_version, bad_id,
}
use leadkart_go.Platform.TopupLeadCredits.{
  Command, Err, credits_error, store_error, load_or_new, is_stale, run_once, attempts, handle,
}

-- The balance of a row; a tenant without a row has no credits.
abbrev pub balance_of : Option LeadCredit → ℤ
balance_of none = pos 0
balance_of (some l) = l.balance

-- What is asked of the stored rows: they stand under their keys, and have been saved at least once.
pub record IsStored {Form : Type 0} (db : Database Form) : Type 0 where
  pub keyed : (k : Str) (l : LeadCredit) → db.credits k ≡ some l → l.tenant_id ≡ k
  pub saved : (k : Str) (l : LeadCredit) → db.credits k ≡ some l → pos 1 ≤ℤ l.version

-- What is asked of the other transactions: they keep the rows so, and a row with the version that it had
-- has the balance it had, since every write of a row raises its version.
pub record IsCareful {Form : Type 0} (between : Database Form → Database Form) : Type 0 where
  pub stored : (db : Database Form) → IsStored db → IsStored (between db)
  pub versioned :
      (db : Database Form) (k : Str) (l m : LeadCredit)
      → db.credits k ≡ some l
      → (between db).credits k ≡ some m
      → m.version ≡ l.version
      → m.balance ≡ l.balance

topup_inversion :
    (l m : LeadCredit) (delta : ℤ) (reason by : Str) (now : Time)
    → topup l delta reason by now ≡ ok m
    → (m.tenant_id ≡ l.tenant_id) × (m.version ≡ l.version) × (m.balance ≡ add64 l.balance delta)
unfolding topup
topup_inversion l m delta reason by now h = ground arith

pub new_for_tenant_inversion :
    (is_uuid : Str → Bool) (tenant_id : Str) (now : Time) (l : LeadCredit)
    → new_for_tenant is_uuid tenant_id now ≡ ok l
    → (l.tenant_id ≡ tenant_id) × (l.version ≡ pos 0) × (l.balance ≡ pos 0)
unfolding new_for_tenant
new_for_tenant_inversion is_uuid tenant_id now l h = ground arith

-- The aggregate that a round works on.
load_inversion :
    (is_uuid : Str → Bool) (o : Option LeadCredit) (tenant_id : Str) (now : Time) (l : LeadCredit)
    → load_or_new is_uuid o tenant_id now ≡ ok l
    → (o ≡ some l)
      ⊎ ((o ≡ none) × (l.tenant_id ≡ tenant_id) × (l.version ≡ pos 0) × (l.balance ≡ pos 0))
load_inversion is_uuid none tenant_id now l h =
    let (tenant, version, balance) =
      new_for_tenant_inversion is_uuid tenant_id now l
        (map_err_inversion credits_error (new_for_tenant is_uuid tenant_id now) h) in
    inr (refl, tenant, version, balance)
load_inversion is_uuid (some m) tenant_id now l h = inl (ground arith)

-- A write through the repository replaces the row of one tenant, at the version that was read, or
-- inserts the first one.
pub data Written {Form : Type 0} (mid d : Database Form) (l : LeadCredit) : Type 0 where
  written :
      (row : LeadCredit)
      → row.balance ≡ l.balance
      → d.credits ≡ put_credit l.tenant_id row mid.credits
      → d.purchases ≡ mid.purchases
      → (at_version (mid.credits l.tenant_id) l.version ≡ true)
        ⊎ ((mid.credits l.tenant_id ≡ none) × (l.version ≡ pos 0))
      → Written mid d l

none_of_is_some : (o : Option LeadCredit) → is_some o ≡ false → o ≡ none
none_of_is_some none h = refl
none_of_is_some (some l) h = cc

Written-write_row :
    {Form : Type 0} (is_uuid : Str → Bool) (storage_of : Storage) (mid d : Database Form)
    (l : LeadCredit) (b : Bool)
    → at_version (mid.credits l.tenant_id) l.version ≡ b
    → write_row is_uuid storage_of b mid l ≡ ok d
    → Written mid d l
Written-write_row is_uuid storage_of mid d l true e h =
    let same : d ≡ write_credit mid l.tenant_id (bumped l) l = ground arith in
    written (bumped l) refl (ap (λ x. x.credits) same) (ap (λ x. x.purchases) same) (inl e)
Written-write_row is_uuid storage_of mid d l false e h =
    let same : d ≡ write_credit mid l.tenant_id (inserted l) l = ground arith in
    written (inserted l) refl (ap (λ x. x.credits) same) (ap (λ x. x.purchases) same)
      (inr (none_of_is_some (mid.credits l.tenant_id) (ground arith), ground arith))

pub Written-upsert_with_version :
    {Form : Type 0} (is_uuid : Str → Bool) (storage_of : Storage) (mid d : Database Form)
    (l : LeadCredit)
    → upsert_with_version is_uuid storage_of mid l ≡ ok d
    → Written mid d l
unfolding upsert_with_version
Written-upsert_with_version is_uuid storage_of mid d l h =
    let (u, _, k) =
      bind_inversion (fail_if (not (is_uuid l.tenant_id)) _)
        (λ _. write_row is_uuid storage_of (at_version (mid.credits l.tenant_id) l.version) mid l)
        h in
    Written-write_row is_uuid storage_of mid d l _ refl k

-- A top-up that took place on top of what the others had committed: the answer is the balance of the
-- tenant's row with the delta, which the row now has; no other row and no purchase is touched.
pub data Added {Form : Type 0} (mid d : Database Form) (cmd : Command) (balance : ℤ) : Type 0 where
  added :
      balance ≡ add64 (balance_of (mid.credits cmd.tenant_id)) cmd.delta
      → balance_of (d.credits cmd.tenant_id) ≡ balance
      → ((k : Str) → str_eq k cmd.tenant_id ≡ false → d.credits k ≡ mid.credits k)
      → d.purchases ≡ mid.purchases
      → Added mid d cmd balance

pub at_version_row :
    (o : Option LeadCredit) (v : ℤ)
    → at_version o v ≡ true
    → (row : LeadCredit) × (o ≡ some row) × (row.version ≡ v)
at_version_row none v h = cc
at_version_row (some row) v h = (row, refl, ground arith)

Added-written :
    {Form : Type 0} (mid d : Database Form) (cmd : Command) (l : LeadCredit)
    → l.tenant_id ≡ cmd.tenant_id
    → l.balance ≡ add64 (balance_of (mid.credits cmd.tenant_id)) cmd.delta
    → Written mid d l
    → Added mid d cmd l.balance
Added-written mid d cmd l tenant balance (written row same rows purchases how) =
    added balance (rw (rows, tenant, str_eq_refl cmd.tenant_id) same)
      (λ k other. rw (rows, tenant, other) refl) purchases

pub not_saved : (v : ℤ) → pos 1 ≤ℤ v → ¬ (v ≡ pos 0)
not_saved v h e = ground arith

-- The balance that a round has added to is the one of the row it replaced.
balance_of_replaced :
    {Form : Type 0} (is_uuid : Str → Bool) (db mid : Database Form) (cmd : Command) (now : Time)
    (credit l : LeadCredit)
    → IsStored db
    → IsStored mid
    → ((row m : LeadCredit)
        → db.credits cmd.tenant_id ≡ some row
        → mid.credits cmd.tenant_id ≡ some m
        → m.version ≡ row.version
        → m.balance ≡ row.balance)
    → load_or_new is_uuid (db.credits cmd.tenant_id) cmd.tenant_id now ≡ ok credit
    → l.version ≡ credit.version
    → (at_version (mid.credits cmd.tenant_id) l.version ≡ true)
      ⊎ ((mid.credits cmd.tenant_id ≡ none) × (l.version ≡ pos 0))
    → credit.balance ≡ balance_of (mid.credits cmd.tenant_id)
balance_of_replaced is_uuid db mid cmd now credit l stored stored_mid versioned load version how =
    elim (load_inversion is_uuid (db.credits cmd.tenant_id) cmd.tenant_id now credit load) [
      | inl there ↦ elim how [
        | inl current ↦
            let (row, found, same) = at_version_row (mid.credits cmd.tenant_id) l.version current in
            sym (versioned credit row there found (same ∙ version)) ∙ ap balance_of (sym found)
        | inr (absent, zero) ↦ absurd (
            not_saved credit.version (stored.saved cmd.tenant_id credit there) (sym version ∙ zero))
      ]
      | inr (absent, tenant, zero, empty) ↦ elim how [
        | inl current ↦
            let (row, found, same) = at_version_row (mid.credits cmd.tenant_id) l.version current in
            absurd (
              not_saved row.version (stored_mid.saved cmd.tenant_id row found)
                (same ∙ version ∙ zero))
        | inr (absent_too, _) ↦ empty ∙ ap balance_of (sym absent_too)
      ]
    ]

tenant_of_loaded :
    {Form : Type 0} (is_uuid : Str → Bool) (db : Database Form) (cmd : Command) (now : Time)
    (credit : LeadCredit)
    → IsStored db
    → load_or_new is_uuid (db.credits cmd.tenant_id) cmd.tenant_id now ≡ ok credit
    → credit.tenant_id ≡ cmd.tenant_id
tenant_of_loaded is_uuid db cmd now credit stored load =
    elim (load_inversion is_uuid (db.credits cmd.tenant_id) cmd.tenant_id now credit load) [
      | inl there ↦ stored.keyed cmd.tenant_id credit there
      | inr (_, tenant, _, _) ↦ tenant
    ]

same_answer :
    {Form : Type 0} (w d : Database Form) (a b : ℤ)
    → ◌≡◌ {A = Result Err (Database Form × ℤ)} (ok (w, a)) (ok (d, b))
    → (w ≡ d) × (a ≡ b)
same_answer {Form} w d a b h = (ap (λ r. (value_of r).0) h, ap (λ r. (value_of r).1) h)
  where
    value_of : Result Err (Database Form × ℤ) → Database Form × ℤ
    value_of (ok x) = x
    value_of (err e) = (w, a)

Added-of_parts :
    {Form : Type 0} (is_uuid : Str → Bool) (db mid w d : Database Form) (cmd : Command) (now : Time)
    (credit l : LeadCredit) (balance : ℤ)
    → IsStored db
    → IsStored mid
    → ((row m : LeadCredit)
        → db.credits cmd.tenant_id ≡ some row
        → mid.credits cmd.tenant_id ≡ some m
        → m.version ≡ row.version
        → m.balance ≡ row.balance)
    → load_or_new is_uuid (db.credits cmd.tenant_id) cmd.tenant_id now ≡ ok credit
    → l.tenant_id ≡ credit.tenant_id
    → l.version ≡ credit.version
    → l.balance ≡ add64 credit.balance cmd.delta
    → Written mid w l
    → ◌≡◌ {A = Result Err (Database Form × ℤ)} (ok (w, l.balance)) (ok (d, balance))
    → Added mid d cmd balance
Added-of_parts is_uuid db mid w d cmd now credit l balance stored stored_mid versioned load tenant
      version sum (written row same rows purchases how) answer =
    let own = tenant ∙ tenant_of_loaded is_uuid db cmd now credit stored load in
    let before =
      balance_of_replaced is_uuid db mid cmd now credit l stored stored_mid versioned load version
        (rw own at how) in
    let (final, result) = same_answer w d l.balance balance answer in
    subst (λ x. Added mid x cmd balance) final
      (subst (Added mid w cmd) result (
        Added-written mid w cmd l own (sum ∙ ap (λ b. add64 b cmd.delta) before)
          (written row same rows purchases how)))

Added-run_once :
    {Form : Type 0} (is_uuid : Str → Bool) (storage_of : Storage) (db d : Database Form)
    (cmd : Command) (a : Attempt Form) (balance : ℤ)
    → IsStored db
    → IsCareful a.between
    → run_once is_uuid storage_of db cmd a ≡ ok (d, balance)
    → Added (a.between db) d cmd balance
unfolding run_once
Added-run_once is_uuid storage_of db d cmd a balance stored careful h =
    let (u, _, h1) =
      bind_inversion (fail_if (not (is_uuid cmd.tenant_id)) (store_error bad_id)) _ h in
    let (credit, load, h2) =
      bind_inversion (load_or_new is_uuid (db.credits cmd.tenant_id) cmd.tenant_id a.now) _ h1 in
    let (topped, top, h3) =
      bind_inversion
        (map_err credits_error (topup credit cmd.delta cmd.reason cmd.adjusted_by a.now)) _ h2 in
    let (written_db, write, h4) =
      bind_inversion
        (map_err store_error (upsert_with_version is_uuid storage_of (a.between db) topped)) _ h3 in
    let (tenant, version, sum) =
      topup_inversion credit topped cmd.delta cmd.reason cmd.adjusted_by a.now
        (map_err_inversion credits_error _ top) in
    let w =
      Written-upsert_with_version is_uuid storage_of (a.between db) written_db topped
        (map_err_inversion store_error _ write) in
    Added-of_parts is_uuid db (a.between db) written_db d cmd a.now credit topped balance stored
      (careful.stored db stored) (careful.versioned db cmd.tenant_id) load tenant version sum w h4

-- A database that the others' transactions lead to, before the first of some rounds or after one of them.
abbrev pub IsReached :
    {Form : Type 0} → Database Form → Database Form → List (Attempt Form) → Type 0
IsReached mid db [] = mid ≡ db
IsReached mid db (a ∷ more) = (mid ≡ db) ⊎ IsReached mid (a.between db) more

-- What a top-up answers, and what it has done: the credits are added once to what the others had
-- committed, or an error leaves what the others had committed.
pub data Answer {Form : Type 0} (db final : Database Form) (cmd : Command)
    (rounds : List (Attempt Form)) : Result Err ℤ → Type 0 where
  credited :
      (mid : Database Form) (balance : ℤ)
      → IsReached mid db rounds
      → Added mid final cmd balance
      → Answer db final cmd rounds (ok balance)
  refused : (e : Err) → IsReached final db rounds → Answer db final cmd rounds (err e)

IsReached-refl :
    {Form : Type 0} (db : Database Form) (rounds : List (Attempt Form)) → IsReached db db rounds
IsReached-refl db [] = refl
IsReached-refl db (a ∷ more) = inl refl

later-Answer :
    {Form : Type 0} (db final : Database Form) (cmd : Command) (a : Attempt Form)
    (more : List (Attempt Form)) {answer : Result Err ℤ}
    → Answer (a.between db) final cmd more answer
    → Answer db final cmd (a ∷ more) answer
later-Answer db final cmd a more (credited mid balance reached done) =
    credited mid balance (inr reached) done
later-Answer db final cmd a more (refused e reached) = refused e (inr reached)

module _ {Form : Type 0} (is_uuid : Str → Bool) (storage_of : Storage) where
  attempts-Answer :
      (db : Database Form) (cmd : Command) (a : Attempt Form) (more : List (Attempt Form))
      → IsStored db
      → All (λ (b : Attempt Form). IsCareful b.between) (a ∷ more)
      → let (final, answer) = attempts is_uuid storage_of db cmd a more in
        Answer db final cmd (a ∷ more) answer
  unfolding attempts
  attempts-Answer db cmd a [] stored (careful, _) =
      elim (Result-cases (run_once is_uuid storage_of db cmd a)) [
        | inl ((d, balance), e) ↦
            rw (e, attempts)
              (credited (a.between db) balance (inr refl)
                (Added-run_once is_uuid storage_of db d cmd a balance stored careful e))
        | inr (e, failed) ↦ rw (failed, attempts) (refused e (inr refl))
      ]
  attempts-Answer db cmd a (b ∷ more) stored (careful, rest) =
      elim (Result-cases (run_once is_uuid storage_of db cmd a)) [
        | inl ((d, balance), e) ↦
            rw (e, attempts)
              (credited (a.between db) balance (inr (IsReached-refl (a.between db) (b ∷ more)))
                (Added-run_once is_uuid storage_of db d cmd a balance stored careful e))
        | inr (e, failed) ↦
            let retried =
              later-Answer db (attempts is_uuid storage_of (a.between db) cmd b more).0 cmd a
                (b ∷ more)
                (attempts-Answer (a.between db) cmd b more (careful.stored db stored) rest) in
            elim (Bool-cases (is_stale e && not a.sleep_fails)) [
              | inl again ↦ rw (failed, attempts, again) retried
              | inr over ↦
                  rw (failed, attempts, over)
                    (refused _ (inr (IsReached-refl (a.between db) (b ∷ more))))
            ]
      ]

-- A top-up is applied exactly once or not at all, whatever other transactions commit around its three
-- rounds: an answer with a balance means that the tenant's row has this balance, which is the balance
-- that the others had left plus the amount, with no other row and no purchase touched; and an error
-- leaves exactly what the others had committed, also when the retries are exhausted.
pub handle-Answer :
    {Form : Type 0} (is_uuid : Str → Bool) (storage_of : Storage) (db : Database Form)
    (cmd : Command) (first second third : Attempt Form)
    → IsStored db
    → All (λ (b : Attempt Form). IsCareful b.between) (first ∷ second ∷ third ∷ [])
    → let (final, answer) = handle is_uuid storage_of db cmd first second third in
      Answer db final cmd (first ∷ second ∷ third ∷ []) answer
unfolding handle
handle-Answer is_uuid storage_of db cmd first second third stored careful =
    elim (Bool-cases (leb_ℤ cmd.delta (pos 0))) [
      | inl bad ↦ rw bad (refused _ (inl refl))
      | inr good ↦
          rw good
            (attempts-Answer is_uuid storage_of db cmd first (second ∷ third ∷ []) stored careful)
    ]
