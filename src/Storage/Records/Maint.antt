-- ===== src/Storage/Records/Maint.antt =====
-- Registering a record leaves the newest records only.
use cke.Prelude.{
  ℕ, ◌+◌, ◌-◌, ◌≤◌, ◌<◌, ◌≡◌, sym, ap, subst, ◌∙◌, inl, inr, String, Bool, true, false, List, [],
  ◌∷◌, leb, some, length, Bool-cases, arith, if◌then◌else◌,
}
use cke.Record.{Record}
use cke.Etcd.{
  KeyValue, put, delete_range, Etcd, World, Outcome, returns, fails, out_of_fuel, not_found,
  no_leader, bad_value, client_error, crashed, command_failed, arrive, holds, key_exists, Call,
  then_run, pure, fail, txn,
}
use cke.Etcd.Calls.{list-ok, txn-ok, script-cases}
use cke.Etcd.Laws.{IsLawful}
use cke.Storage.{Codec}
use cke.Storage.Leader.{write_by_leader-then}
use cke.Storage.Steps.{require-ok}
use cke.Storage.Numbers.{format_int}
use cke.Storage.Records.{
  max_records, record_key, key_at, or_crash, delete_records, delete_oldest, maint_records,
  register_record,
}
use cke.Storage.Records.Bounds.{drop, length-drop, list-delete_range}

module _ (E : Etcd) where
  or_crash-ok :
      (o : Outcome Bool) (k : Bool → Call E Unit) (w w' : World E)
      → then_run E (or_crash o, w) k ≡ (returns tt, w')
      → then_run E (o, w) k ≡ (returns tt, w')
  or_crash-ok (returns b) k w w' e = e
  or_crash-ok (fails client_error) k w w' e = cc
  or_crash-ok (fails not_found) k w w' e = e
  or_crash-ok (fails no_leader) k w w' e = e
  or_crash-ok (fails bad_value) k w w' e = e
  or_crash-ok (fails crashed) k w w' e = e
  or_crash-ok (fails command_failed) k w w' e = e
  or_crash-ok out_of_fuel k w w' e = e

  delete_oldest-ok :
      (leader_key : String) (l : List (String × KeyValue)) (max : ℕ) (w w' : World E)
      → delete_oldest E leader_key l max w ≡ (returns tt, w')
      → w'.state
        ≡ E.write (arrive E w).1.state (delete_range (key_at l 0) (key_at l (length l - max)) ∷ [])
  unfolding delete_oldest delete_records
  delete_oldest-ok leader_key l max w w' e =
      let ws = delete_range (key_at l 0) (key_at l (length l - max)) ∷ [] in
      let r = txn E (key_exists leader_key) ws w in
      let e₁ =
        or_crash-ok r.0 (λ succeeded. if succeeded then pure E tt else fail E no_leader) r.1 w' e in
      decided (holds E (key_exists leader_key) (arrive E w).1.state) _ _
        (txn-ok E w (key_exists leader_key) ws _ w' tt e₁)
    where
      decided :
          (b : Bool) (v u : World E)
          → (if b then pure E tt else fail E no_leader) (if b then u else v) ≡ (returns tt, w')
          → w'.state ≡ u.state
      decided true v u e = ap (λ x. x.1.state) (sym e)
      decided false v u e = cc

  -- A call after the script meets no transaction of another client.
  arrive_quiet : (w : World E) → w.script ≡ [] → (arrive E w).1 ≡ w
  arrive_quiet w h = elim (script-cases E w) [
    | inl same ↦ same
    | inr less ↦
        let none_left : length w.script ≡ 0 = ap length h in absurd (omega (arith, less, none_left))
  ]

  maint_records-ok :
      (L : IsLawful E) (leader_key : String) (max : ℕ) (w w' : World E)
      → 0 < max
      → w.script ≡ []
      → maint_records E leader_key max w ≡ (returns tt, w')
      → E.list w'.state "records/"
        ≡ drop (length (E.list w.state "records/") - max) (E.list w.state "records/")
  unfolding maint_records
  maint_records-ok L leader_key max w w' pos quiet e =
      let e₁ = list-ok E w "records/" _ w' tt e in
      let same = arrive_quiet w quiet in
      let l = E.list w.state "records/" in
      let e₂ =
        subst
          (λ v.
            (if leb (length (E.list v.state "records/")) max
                then pure E tt
                else delete_oldest E leader_key (E.list v.state "records/") max)
              v
            ≡ (returns tt, w'))
          same e₁ in
      elim (Bool-cases (leb (length l) max)) [
        | inl few ↦
            let done : (returns tt, w) ≡ (returns tt, w') = rw few at e₂ in
            let none_dropped : length l - max ≡ 0 = ground (arith, few) in
            rw none_dropped (ap (λ x. E.list x.1.state "records/") (sym done))
        | inr many ↦
            let e₃ : delete_oldest E leader_key l max w ≡ (returns tt, w') = rw many at e₂ in
            let gone = delete_oldest-ok leader_key l max w w' e₃ in
            let gone' =
              subst
                (λ v.
                  w'.state
                  ≡ E.write v.state (delete_range (key_at l 0) (key_at l (length l - max)) ∷ []))
                same gone in
            ap (λ t. E.list t "records/") gone'
            ∙ list-delete_range E L "records/" w.state (length l - max) (ground (arith, many, pos))
      ]

  -- A registration that returns without an error leaves the newest records of those with the new one,
  -- at most a thousand, where no other client comes in between.
  pub register_record-le :
      (L : IsLawful E) (codec : Codec Record) (leader_key : String) (r : Record) (w w' : World E)
      → (arrive E w).1.script ≡ []
      → register_record E codec leader_key r w ≡ (returns tt, w')
      → (text : String) × (codec.marshal r ≡ some text)
        × (let s =
              E.write
                (arrive E w).1.state
                (put (record_key r) text ∷ put "records" (format_int (r.id + 1)) ∷ []) in
            (E.list w'.state "records/"
              ≡ drop (length (E.list s "records/") - max_records) (E.list s "records/"))
            × (length (E.list w'.state "records/") ≤ max_records))
  unfolding register_record
  register_record-le L codec leader_key r w w' quiet e =
      let (text, is_text, e₁) = require-ok E (codec.marshal r) _ w w' tt e in
      let ws = put (record_key r) text ∷ put "records" (format_int (r.id + 1)) ∷ [] in
      let s = E.write (arrive E w).1.state ws in
      let e₂ =
        write_by_leader-then E leader_key ws (maint_records E leader_key max_records) w w' e₁ in
      let left =
        maint_records-ok L leader_key max_records
          (record { state = s; script = (arrive E w).1.script }) w' (omega arith) quiet e₂ in
      (
        text,
        is_text,
        (
          left,
          subst (λ l. length l ≤ max_records) (sym left)
              (omega (
                arith,
                length-drop (length (E.list s "records/") - max_records) (E.list s "records/"),
              )),
        ),
      )
