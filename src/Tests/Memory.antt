-- ===== src/Tests/Memory.antt =====
-- A table in memory that refuses some statements and loses some answers, and meets what the
-- repository assumes of its database.
use homelab_mcp.Prelude.{
  ℕ, ◌≡◌, refl, Option, none, some, Result, ok, err, arith, ◌==◌, if◌then◌else◌, List, [], ◌∷◌,
  subst, sym, ap, ◌∙◌, ◌⊎◌, inl, inr, is_some, length, ◌≤◌, All, ok-injective,
}
use homelab_mcp.Text.{Str}
use homelab_mcp.Inventory.Database.{
  MachineRow, SqlxError, other, Database, IsDatabase, SetsRow, KeepsRows, FieldsUpdated, KeyUpdated,
  Inserted,
}

abbrev pub Table : Type 0
Table = ℕ → Option MachineRow

abbrev pub set_row : Table → ℕ → Option MachineRow → Table
set_row t id r j = if j == id then r else t j

abbrev fields_set : MachineRow → Str → Str → ℕ → Str → MachineRow
fields_set old name host port username = record old {
  display_name = name;
  ssh_host = host;
  ssh_port = port;
  ssh_username = username;
}

abbrev update_row :
    Option MachineRow
    → (MachineRow → MachineRow)
    → ℕ
    → Table
    → Result SqlxError (Option MachineRow) × Table
update_row none f id t = (ok none, t)
update_row (some old) f id t = (ok (some (f old)), set_row t id (some (f old)))

abbrev delete_row : Option MachineRow → ℕ → Table → Result SqlxError ℕ × Table
delete_row none id t = (ok 0, set_row t id none)
delete_row (some old) id t = (ok 1, set_row t id none)

abbrev pub inserted : ℕ → Str → Str → ℕ → Str → Option Str → MachineRow
inserted id name host port username key = record {
  id = id;
  display_name = name;
  ssh_host = host;
  ssh_port = port;
  ssh_username = username;
  pinned_host_public_key = key;
  created_at = 0;
  updated_at = 0;
}

-- what meets a statement: nothing, a refusal by the server, or an answer that is lost on the way
pub data Fault : Type 0 where
  works refused unheard : Fault

abbrev pub faulty :
    {A : Type 0} → Fault → Result SqlxError A × Table → Table → Result SqlxError A × Table
faulty works run t = run
faulty refused run t = (err (SqlxError.database none), t)
faulty unheard run t = (err other, run.1)

-- the table, with what meets the next statements
pub record Memory : Type 0 where
  pub faults : List Fault
  pub rows : Table

abbrev pub next_fault : List Fault → Fault
next_fault [] = works
next_fault (f ∷ fs) = f

abbrev pub later_faults : List Fault → List Fault
later_faults [] = []
later_faults (f ∷ fs) = fs

abbrev pub sent : {A : Type 0} → Result SqlxError A × Table → Memory → Result SqlxError A × Memory
sent run s =
    let (answer, rows) = faulty (next_fault s.faults) run s.rows in
    (answer, record { faults = later_faults s.faults; rows = rows })

abbrev insert_row : MachineRow → ℕ → Table → Result SqlxError MachineRow × Table
insert_row r id t = (ok r, set_row t id (some r))

abbrev pub memory : Database
memory = record {
  State = Memory;
  row = λ s id. s.rows id;
  insert = λ id name host port username key s.
      sent (insert_row (inserted id name host port username key) id s.rows) s;
  select_one = λ id s. sent (ok (s.rows id), s.rows) s;
  select_page = λ limit s. sent (ok [], s.rows) s;
  update_fields = λ id name host port username s.
      sent (update_row (s.rows id) (λ old. fields_set old name host port username) id s.rows) s;
  update_key = λ id key s.
      sent (update_row (s.rows id) (λ old. record old { pinned_host_public_key = key }) id s.rows)
        s;
  delete = λ id s. sent (delete_row (s.rows id) id s.rows) s;
}

abbrev pub empty : Memory
empty = record { faults = []; rows = λ id. none }

-- the answer to the second statement is lost, and the third is refused
abbrev pub shaky : Memory
shaky = record { faults = works ∷ unheard ∷ refused ∷ []; rows = λ id. none }

faulty-ok :
    {A : Type 0} (f : Fault) (run : Result SqlxError A × Table) (t : Table) (a : A)
    → (faulty f run t).0 ≡ ok a
    → (run.0 ≡ ok a) × ((faulty f run t).1 ≡ run.1)
faulty-ok works run t a h = (h, refl)
faulty-ok refused run t a h = cc
faulty-ok unheard run t a h = cc

-- a statement that would be answered fails by a fault only
faulty-err :
    {A : Type 0} (f : Fault) (run : Result SqlxError A × Table) (t : Table) (a : A) (e : SqlxError)
    → run.0 ≡ ok a
    → (faulty f run t).0 ≡ err e
    → ((faulty f run t).1 ≡ t) ⊎ ((e ≡ other) × ((faulty f run t).1 ≡ run.1))
faulty-err works run t a e answers h = absurd (cc (answers, h))
faulty-err refused run t a e answers h = inl refl
faulty-err unheard run t a e answers h = inr (cc, refl)

faulty-keeps :
    {A : Type 0} (f : Fault) (r : Result SqlxError A) (t : Table)
    → KeepsRows t (faulty f (r, t) t).1
faulty-keeps works r t j = refl
faulty-keeps refused r t j = refl
faulty-keeps unheard r t j = refl

SetsRow-same :
    (t t' t'' : Table) (id : ℕ) (r : Option MachineRow)
    → t'' ≡ t'
    → SetsRow t t' id r
    → SetsRow t t'' id r
SetsRow-same t t' t'' id r same sets j = ap (λ (x : Table). x j) same ∙ sets j

KeepsRows-same : (t t' t'' : Table) → t'' ≡ t' → KeepsRows t t' → KeepsRows t t''
KeepsRows-same t t' t'' same keeps j = ap (λ (x : Table). x j) same ∙ keeps j

update_row-some :
    (o : Option MachineRow) (f : MachineRow → MachineRow) (id : ℕ) (t : Table) (r : MachineRow)
    → (update_row o f id t).0 ≡ ok (some r)
    → ((old : MachineRow) × (o ≡ some old) × (f old ≡ r))
      × SetsRow t (update_row o f id t).1 id (some r)
update_row-some none f id t r h = cc
update_row-some (some old) f id t r h =
    let eq : f old ≡ r = cc in
    (
      (old, refl, eq),
      subst (λ x. SetsRow t (set_row t id (some (f old))) id (some x)) eq (λ j. refl),
    )

update_row-none :
    (o : Option MachineRow) (f : MachineRow → MachineRow) (id : ℕ) (t : Table)
    → (update_row o f id t).0 ≡ ok none
    → (o ≡ none) × KeepsRows t (update_row o f id t).1
update_row-none none f id t h = (refl, λ j. refl)
update_row-none (some old) f id t h = cc

update_row-answers :
    (o : Option MachineRow) (f : MachineRow → MachineRow) (id : ℕ) (t : Table)
    → (a : Option MachineRow) × ((update_row o f id t).0 ≡ ok a)
update_row-answers none f id t = (none, refl)
update_row-answers (some old) f id t = (some (f old), refl)

-- what an update does, whoever hears of it
update_row-applied :
    (o : Option MachineRow) (f : MachineRow → MachineRow) (id : ℕ) (t : Table)
    → KeepsRows t (update_row o f id t).1
      ⊎ ((old : MachineRow) × (o ≡ some old) × SetsRow t (update_row o f id t).1 id (some (f old)))
update_row-applied none f id t = inl (λ j. refl)
update_row-applied (some old) f id t = inr (old, refl, λ j. refl)

update_row-lost :
    (fault : Fault) (o : Option MachineRow) (f : MachineRow → MachineRow) (id : ℕ) (t : Table)
    (e : SqlxError)
    → (faulty fault (update_row o f id t) t).0 ≡ err e
    → KeepsRows t (faulty fault (update_row o f id t) t).1
      ⊎ ((e ≡ other)
          × ((old : MachineRow) × (o ≡ some old)
              × SetsRow t (faulty fault (update_row o f id t) t).1 id (some (f old))))
update_row-lost fault o f id t e h =
    let run = update_row o f id t in
    let (a, answers) = update_row-answers o f id t in
    elim (faulty-err fault run t a e answers h) [
      | inl same ↦ inl (KeepsRows-same t t (faulty fault run t).1 same (λ j. refl))
      | inr (lost, same) ↦ elim (update_row-applied o f id t) [
        | inl keeps ↦ inl (KeepsRows-same t run.1 (faulty fault run t).1 same keeps)
        | inr (old, held, sets) ↦ inr (
          lost,
          (old, held, SetsRow-same t run.1 (faulty fault run t).1 id (some (f old)) same sets),
        )
      ]
    ]

delete_row-ok :
    (o : Option MachineRow) (id : ℕ) (t : Table) (n : ℕ)
    → (delete_row o id t).0 ≡ ok n
    → (n ≡ (if is_some o then 1 else 0)) × SetsRow t (delete_row o id t).1 id none
delete_row-ok none id t n h = (cc, λ j. refl)
delete_row-ok (some old) id t n h = (cc, λ j. refl)

delete_row-answers :
    (o : Option MachineRow) (id : ℕ) (t : Table) → (n : ℕ) × ((delete_row o id t).0 ≡ ok n)
delete_row-answers none id t = (0, refl)
delete_row-answers (some old) id t = (1, refl)

fields_set-FieldsUpdated :
    (old : MachineRow) (name host : Str) (port : ℕ) (username : Str)
    → FieldsUpdated old name host port username (fields_set old name host port username)
fields_set-FieldsUpdated old name host port username = record {
  id = refl;
  display_name = refl;
  ssh_host = refl;
  ssh_port = refl;
  ssh_username = refl;
  pinned_host_public_key = refl;
  created_at = refl;
}

key_set-KeyUpdated :
    (old : MachineRow) (key : Option Str)
    → KeyUpdated old key (record old { pinned_host_public_key = key })
key_set-KeyUpdated old key = record {
  id = refl;
  display_name = refl;
  ssh_host = refl;
  ssh_port = refl;
  ssh_username = refl;
  pinned_host_public_key = refl;
  created_at = refl;
}

inserted-Inserted :
    (t : Table) (id : ℕ) (name host : Str) (port : ℕ) (username : Str) (key : Option Str)
    → Inserted id name host port username key (inserted id name host port username key)
      × SetsRow t
          (set_row t id (some (inserted id name host port username key)))
          id
          (some (inserted id name host port username key))
inserted-Inserted t id name host port username key = (
  record {
    is_id = refl;
    display_name = refl;
    ssh_host = refl;
    ssh_port = refl;
    ssh_username = refl;
    pinned_host_public_key = refl;
  },
  λ j. refl,
)

pub memory-IsDatabase : IsDatabase memory
memory-IsDatabase = record {
  insert_ok = λ s id name host port username key r h.
      let row = inserted id name host port username key in
      let fault = next_fault s.faults in
      let (answered, same) = faulty-ok fault (insert_row row id s.rows) s.rows r h in
      let (columns, sets) =
        subst
          (λ x.
            Inserted id name host port username key x
            × SetsRow s.rows (set_row s.rows id (some row)) id (some x))
          (ok-injective row r answered) (inserted-Inserted s.rows id name host port username key) in
      (columns, SetsRow-same s.rows _ _ id (some r) same sets);
  insert_err = λ s id name host port username key e h.
      let row = inserted id name host port username key in
      let fault = next_fault s.faults in
      let (columns, sets) = inserted-Inserted s.rows id name host port username key in
      elim (faulty-err fault (insert_row row id s.rows) s.rows row e refl h) [
        | inl same ↦ inl (KeepsRows-same s.rows s.rows _ same (λ j. refl))
        | inr (lost, same) ↦
            inr (lost, (row, columns, SetsRow-same s.rows _ _ id (some row) same sets))
      ];
  select_one_ok = λ s id o h. sym (
      ok-injective (s.rows id) o
        (faulty-ok (next_fault s.faults) (ok (s.rows id), s.rows) s.rows o h).0);
  select_one_keeps = λ s id. faulty-keeps (next_fault s.faults) (ok (s.rows id)) s.rows;
  select_page_ok = λ s limit rows h.
      subst (λ x. (length x ≤ limit) × All (λ r. s.rows r.id ≡ some r) x)
        (ok-injective [] rows (faulty-ok (next_fault s.faults) (ok [], s.rows) s.rows rows h).0)
        (omega arith, tt);
  select_page_keeps =
      λ s limit. faulty-keeps {A = List MachineRow} (next_fault s.faults) (ok []) s.rows;
  update_fields_some = λ s id name host port username r h.
      let change : MachineRow → MachineRow = λ old. fields_set old name host port username in
      let run = update_row (s.rows id) change id s.rows in
      let (answered, same) = faulty-ok (next_fault s.faults) run s.rows (some r) h in
      let ((old, at, eq), sets) = update_row-some (s.rows id) change id s.rows r answered in
      (
        (
          old,
          at,
          subst (λ x. FieldsUpdated old name host port username x) eq
              (fields_set-FieldsUpdated old name host port username),
        ),
        SetsRow-same s.rows run.1 _ id (some r) same sets,
      );
  update_fields_none = λ s id name host port username h.
      let change : MachineRow → MachineRow = λ old. fields_set old name host port username in
      let run = update_row (s.rows id) change id s.rows in
      let (answered, same) = faulty-ok (next_fault s.faults) run s.rows none h in
      let (missing, keeps) = update_row-none (s.rows id) change id s.rows answered in
      (missing, KeepsRows-same s.rows run.1 _ same keeps);
  update_fields_err = λ s id name host port username e h.
      let change : MachineRow → MachineRow = λ old. fields_set old name host port username in
      elim (update_row-lost (next_fault s.faults) (s.rows id) change id s.rows e h) [
        | inl keeps ↦ inl keeps
        | inr (lost, (old, held, sets)) ↦ inr (
          lost,
          (old, change old, held, fields_set-FieldsUpdated old name host port username, sets),
        )
      ];
  update_key_some = λ s id key r h.
      let change : MachineRow → MachineRow = λ old. record old { pinned_host_public_key = key } in
      let run = update_row (s.rows id) change id s.rows in
      let (answered, same) = faulty-ok (next_fault s.faults) run s.rows (some r) h in
      let ((old, at, eq), sets) = update_row-some (s.rows id) change id s.rows r answered in
      (
        (old, at, subst (λ x. KeyUpdated old key x) eq (key_set-KeyUpdated old key)),
        SetsRow-same s.rows run.1 _ id (some r) same sets,
      );
  update_key_none = λ s id key h.
      let change : MachineRow → MachineRow = λ old. record old { pinned_host_public_key = key } in
      let run = update_row (s.rows id) change id s.rows in
      let (answered, same) = faulty-ok (next_fault s.faults) run s.rows none h in
      let (missing, keeps) = update_row-none (s.rows id) change id s.rows answered in
      (missing, KeepsRows-same s.rows run.1 _ same keeps);
  update_key_err = λ s id key e h.
      let change : MachineRow → MachineRow = λ old. record old { pinned_host_public_key = key } in
      elim (update_row-lost (next_fault s.faults) (s.rows id) change id s.rows e h) [
        | inl keeps ↦ inl keeps
        | inr (lost, (old, held, sets)) ↦
            inr (lost, (old, change old, held, key_set-KeyUpdated old key, sets))
      ];
  delete_ok = λ s id n h.
      let run = delete_row (s.rows id) id s.rows in
      let (answered, same) = faulty-ok (next_fault s.faults) run s.rows n h in
      let (counted, sets) = delete_row-ok (s.rows id) id s.rows n answered in
      (counted, SetsRow-same s.rows run.1 _ id none same sets);
  delete_err = λ s id e h.
      let run = delete_row (s.rows id) id s.rows in
      let (n, answers) = delete_row-answers (s.rows id) id s.rows in
      elim (faulty-err (next_fault s.faults) run s.rows n e answers h) [
        | inl same ↦ inl (KeepsRows-same s.rows s.rows _ same (λ j. refl))
        | inr (lost, same) ↦ inr (
          lost,
          SetsRow-same s.rows run.1 _ id none same
              (delete_row-ok (s.rows id) id s.rows n answers).1,
        )
      ];
}
