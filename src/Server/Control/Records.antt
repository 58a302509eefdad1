-- ===== src/Server/Control/Records.antt =====
-- The record that a run of an operation leaves.
use cke.Prelude.{
  ℕ, ◌≡◌, refl, sym, ap, ◌∙◌, subst, String, Bool, true, false, List, [], ◌∷◌, Option, some, leb,
  length, Bool-cases, ◌⊎◌, inl, inr, if◌then◌else◌, suc, ◌-◌,
}
use cke.Cluster.{Time}
use cke.Record.{
  RecordStatus, new, running, cancelled, completed, CommandInfo, Record, new_record, cancel,
  complete, set_command, set_error,
}
use cke.Etcd.{
  KeyValue, put, delete_range, Etcd, key_exists, Outcome, returns, fails, out_of_fuel, not_found,
  no_leader, bad_value, client_error, crashed, command_failed, World, then_run, arrive, Call, get,
  list, txn, pure,
}
use cke.Etcd.Laws.{IsLawful}
use cke.Storage.{Codec, require, write_by_leader}
use cke.Storage.Leader.{write_by_leader-ok}
use cke.Storage.Steps.{require-ok}
use cke.Storage.Queue.Moves.{str_eq_refl}
use cke.Storage.Records.{
  record_key, or_crash, key_at, delete_records, delete_oldest, maint_records, next_record_id,
  register_record, update_record, get_records,
}
use cke.Server.Control.{
  CommandRun, interrupted, succeeds, breaks, OperatorRun, has_ended, with_info, run_commands,
  run_op, cancel_last, check_last_op,
}
use cke.Server.Control.Calls.{
  is_decided, is_command, Never, bind-Never, require-Never, get-Never, list-Never, txn-Never,
  write_by_leader-Never, if-Never, bind-decided,
}

-- What the run of the commands makes of the record, and its outcome.
abbrev pub final_record : Time → Option String → Record → List (CommandInfo × CommandRun) → Record
final_record ended info r [] = complete ended (with_info info r)
final_record ended info r ((c, interrupted) ∷ _) = cancel ended r
final_record ended info r ((c, succeeds) ∷ cs) = final_record ended info (set_command c r) cs
final_record ended info r ((c, breaks e) ∷ _) = set_error ended e (set_command c r)

abbrev pub final_outcome : List (CommandInfo × CommandRun) → Outcome Unit
final_outcome [] = returns tt
final_outcome ((c, interrupted) ∷ _) = returns tt
final_outcome ((c, succeeds) ∷ cs) = final_outcome cs
final_outcome ((c, breaks e) ∷ _) = fails command_failed

final_record-has_ended :
    (ended : Time) (info : Option String) (r : Record) (cs : List (CommandInfo × CommandRun))
    → has_ended (final_record ended info r cs).status ≡ true
final_record-has_ended ended info r [] = refl
final_record-has_ended ended info r ((c, interrupted) ∷ cs) = refl
final_record-has_ended ended info r ((c, succeeds) ∷ cs) =
    final_record-has_ended ended info (set_command c r) cs
final_record-has_ended ended info r ((c, breaks e) ∷ cs) = refl

module _ (E : Etcd) (codec : Codec Record) (leader_key : String) where
  delete_records-Never : (a b : String) → Never E (delete_records E leader_key a b)
  unfolding Never delete_records
  delete_records-Never a b w =
      go (txn E (key_exists leader_key) (delete_range a b ∷ []) w).0 (txn-Never E _ _ w)
    where
      go : (o : Outcome Bool) → is_command o ≡ false → is_command (or_crash o) ≡ false
      go (returns a) h = refl
      go (fails not_found) h = refl
      go (fails no_leader) h = refl
      go (fails bad_value) h = refl
      go (fails client_error) h = refl
      go (fails crashed) h = refl
      go (fails command_failed) h = h
      go out_of_fuel h = refl

  delete_oldest-Never :
      (l : List (String × KeyValue)) (max : ℕ) → Never E (delete_oldest E leader_key l max)
  unfolding delete_oldest
  delete_oldest-Never l max =
      bind-Never E (delete_records E leader_key (key_at l 0) (key_at l (length l - max))) _
        (delete_records-Never _ _) (if-Never E)

  maint_records-Never : (max : ℕ) → Never E (maint_records E leader_key max)
  unfolding maint_records Never
  maint_records-Never max = bind-Never E (list E "records/") _ (list-Never E "records/") few_or_many
    where
      few_or_many :
          (l : List (String × KeyValue))
          → Never E (if leb (length l) max then pure E tt else delete_oldest E leader_key l max)
      few_or_many l w = elim (Bool-cases (leb (length l) max)) [
        | inl few ↦ rw few refl
        | inr many ↦ rw many (delete_oldest-Never l max w)
      ]

  next_record_id-Never : Never E (next_record_id E codec)
  unfolding next_record_id
  next_record_id-Never =
      bind-Never E (get E "records") _ (get-Never E "records") (λ kv. require-Never E _)

  register_record-Never : (r : Record) → Never E (register_record E codec leader_key r)
  unfolding register_record
  register_record-Never r =
      bind-Never E (require E (codec.marshal r)) _ (require-Never E _) (λ text.
        bind-Never E (write_by_leader E leader_key _) _ (write_by_leader-Never E leader_key _)
          (λ _. maint_records-Never _))

  update_record-Never : (r : Record) → Never E (update_record E codec leader_key r)
  unfolding update_record
  update_record-Never r =
      bind-Never E (require E (codec.marshal r)) _ (require-Never E _)
        (λ text. write_by_leader-Never E leader_key _)

  -- The key of the record holds the record.
  pub record Left (r : Record) (final : E.State) : Type 0 where
    pub text : String
    pub revision : ℕ
    pub marshalled : codec.marshal r ≡ some text
    pub left : E.get final (record_key r) ≡ some (record { value = text; mod_revision = revision })

  get-put :
      (L : IsLawful E) (s : E.State) (k text : String)
      → E.get (E.write s (put k text ∷ [])) k
        ≡ some (record { value = text; mod_revision = suc (L.revision s) })
  get-put L s k text = L.get-write s (put k text ∷ []) k ∙ rw (str_eq_refl k) refl

  update-Left :
      (L : IsLawful E) (r : Record) (w w' : World E)
      → update_record E codec leader_key r w ≡ (returns tt, w')
      → Left r w'.state
  unfolding update_record
  update-Left L r w w' e =
      let (text, is_text, e₁) = require-ok E (codec.marshal r) _ w w' tt e in
      let s = (arrive E w).1.state in
      let stored = write_by_leader-ok E leader_key (put (record_key r) text ∷ []) w w' e₁ in
      record {
        text = text;
        revision = suc (L.revision s);
        marshalled = is_text;
        left = ap (λ t. E.get t (record_key r)) stored ∙ get-put L s (record_key r) text;
      }

  -- The status of a record whose operation is over, and of one that was left behind.
  abbrev pub IsOver : RecordStatus → Type 0
  IsOver s = (s ≡ cancelled) ⊎ (s ≡ completed)

  abbrev pub IsLeftBehind : RecordStatus → Type 0
  IsLeftBehind s = (s ≡ new) ⊎ (s ≡ running)

  has_ended-IsOver : (s : RecordStatus) → has_ended s ≡ true → IsOver s
  has_ended-IsOver new h = cc
  has_ended-IsOver running h = cc
  has_ended-IsOver cancelled h = inl refl
  has_ended-IsOver completed h = inr refl

  has_ended-IsLeftBehind : (s : RecordStatus) → has_ended s ≡ false → IsLeftBehind s
  has_ended-IsLeftBehind new h = inl refl
  has_ended-IsLeftBehind running h = inr refl
  has_ended-IsLeftBehind cancelled h = cc
  has_ended-IsLeftBehind completed h = cc

  -- Where a leader reads the newest record and its check returns without an error: if the record is
  -- cancelled or completed, nothing is changed, and if it is new or running, it is stored as
  -- cancelled, whatever other clients write in between.
  pub check_last_op-Left :
      (L : IsLawful E) (ended : Time) (r : Record) (rs : List Record) (w v w' : World E)
      → get_records E codec 1 w ≡ (returns (r ∷ rs), v)
      → check_last_op E codec leader_key ended w ≡ (returns tt, w')
      → (IsOver r.status × (w' ≡ v)) ⊎ (IsLeftBehind r.status × Left (cancel ended r) w'.state)
  unfolding check_last_op cancel_last
  check_last_op-Left L ended r rs w v w' read e =
      let e₁ =
        subst (λ x. then_run E x (cancel_last E codec leader_key ended) ≡ (returns tt, w')) read
          e in
      elim (Bool-cases (has_ended r.status)) [
        | inl over ↦
            let same : (returns tt, v) ≡ (returns tt, w') = rw over at e₁ in
            inl (has_ended-IsOver r.status over, sym (ap (λ x. x.1) same))
        | inr unfinished ↦
            let updated : update_record E codec leader_key (cancel ended r) v ≡ (returns tt, w') =
              rw unfinished at e₁ in
            inr (
              has_ended-IsLeftBehind r.status unfinished,
              update-Left L (cancel ended r) v w' updated,
            )
      ]

  returned :
      (m : Call E Unit) (w w' : World E) (o : Outcome Unit)
      → Never E m
      → is_decided o ≡ true
      → m w ≡ (o, w')
      → o ≡ returns tt
  unfolding Never
  returned m w w' o f d e = go o d (ap (λ x. is_command x.0) (sym e) ∙ f w)
    where
      go : (o : Outcome Unit) → is_decided o ≡ true → is_command o ≡ false → o ≡ returns tt
      go (returns tt) d h = refl
      go (fails not_found) d h = cc
      go (fails no_leader) d h = cc
      go (fails bad_value) d h = cc
      go (fails client_error) d h = cc
      go (fails crashed) d h = cc
      go (fails command_failed) d h = cc
      go out_of_fuel d h = cc

  module _ (L : IsLawful E) (started ended : Time) where
    last_update :
        (r : Record) (w w' : World E) (o : Outcome Unit)
        → is_decided o ≡ true
        → update_record E codec leader_key r w ≡ (o, w')
        → (o ≡ returns tt) × Left r w'.state
    last_update r w w' o d e =
        let is_returns =
          returned (update_record E codec leader_key r) w w' o (update_record-Never r) d e in
        (
          is_returns,
          update-Left L r w w'
              (subst (λ x. update_record E codec leader_key r w ≡ (x, w')) is_returns e),
        )

    run_commands-Left :
        (info : Option String) (r : Record) (cs : List (CommandInfo × CommandRun)) (w w' : World E)
        (o : Outcome Unit)
        → is_decided o ≡ true
        → run_commands E codec leader_key started ended info r cs w ≡ (o, w')
        → (o ≡ final_outcome cs) × Left (final_record ended info r cs) w'.state
    unfolding run_commands
    run_commands-Left info r [] w w' o d e = last_update _ w w' o d e
    run_commands-Left info r ((c, interrupted) ∷ cs) w w' o d e = last_update _ w w' o d e
    run_commands-Left info r ((c, succeeds) ∷ cs) w w' o d e =
        let (a, v, e₁, e₂) =
          bind-decided E (update_record E codec leader_key (set_command c r)) _ w w' o
            (update_record-Never _) d e in
        run_commands-Left info (set_command c r) cs v w' o d e₂
    run_commands-Left info r ((c, breaks f) ∷ cs) w w' o d e =
        let (a, v, e₁, e₂) =
          bind-decided E (update_record E codec leader_key (set_command c r)) _ w w' o
            (update_record-Never _) d e in
        let (b, u, e₃, e₄) =
          bind-decided E (update_record E codec leader_key (set_error ended f (set_command c r))) _
            v w' o (update_record-Never _) d e₂ in
        let last = update-Left L (set_error ended f (set_command c r)) v u e₃ in
        (
          sym (ap (λ x. x.0) e₄),
          subst (λ x. Left (set_error ended f (set_command c r)) x.state) (ap (λ x. x.1) e₄) last,
        )

    -- A run that ends with the outcome of its commands, and not with an error of the storage, leaves
    -- its record in the store, with the status and the error of that outcome, and the record has
    -- ended, whatever other clients write in between.
    pub run_op-Left :
        (op : OperatorRun) (w w' : World E) (o : Outcome Unit)
        → is_decided o ≡ true
        → run_op E codec leader_key started ended op w ≡ (o, w')
        → (id : ℕ) × (o ≡ final_outcome op.commands)
          × (let r =
                final_record ended op.info (new_record id op.name op.targets started) op.commands in
              Left r w'.state × (has_ended r.status ≡ true))
    unfolding run_op
    run_op-Left op w w' o d e =
        let (id, v, e₁, e₂) =
          bind-decided E (next_record_id E codec) _ w w' o next_record_id-Never d e in
        let r = new_record id op.name op.targets started in
        let (a, u, e₃, e₄) =
          bind-decided E (register_record E codec leader_key r) _ v w' o (register_record-Never r) d
            e₂ in
        let (is_final, left) = run_commands-Left op.info r op.commands u w' o d e₄ in
        (id, is_final, (left, final_record-has_ended ended op.info r op.commands))
