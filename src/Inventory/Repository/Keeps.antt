-- ===== src/Inventory/Repository/Keeps.antt =====
-- The validators of src/inventory.rs on the rows of the table, call by call.
use homelab_mcp.Prelude.{
  ℕ, Bool, ◌≡◌, refl, sym, ap, subst, ◌∙◌, Option, none, some, some-injective, List, [], ◌∷◌,
  Result, ok, err, arith, ◌==◌, Bool-cases, Result-cases, inl, inr,
}
use homelab_mcp.Text.{Str}
use homelab_mcp.Inventory.{CreateMachine, UpdateMachine, ValidationError}
use homelab_mcp.Inventory.Fields.{validate_machine_fields, validate_list_limit}
use homelab_mcp.Inventory.HostKey.{validate_host_public_key}
use homelab_mcp.Inventory.Database.{
  MachineRow, SqlxError, Database, IsDatabase, SetsRow, KeepsRows, Inserted, FieldsUpdated,
  KeyUpdated,
}
use homelab_mcp.Inventory.Repository.{
  Reply, when_valid, create, get, list, update, set_host_key, replace_host_key, clear_host_key,
  delete, reply_page, send_insert, send_update, update_valid, create_valid, optional_key_valid,
}

-- a refused input leaves the state, and a statement is sent only for a valid one
when_valid-keeps :
    {A S : Type 0} (P : S → Type 0) (v : Result ValidationError (Unit {0})) (s : S)
    (run : Reply A × S)
    → P s
    → (v ≡ ok tt → P run.1)
    → P (when_valid v s run).1
when_valid-keeps P (ok u) s run h k = k refl
when_valid-keeps P (err e) s run h k = h

module _ (is_ip : Str → Bool) (decode : Str → Option (List ℕ)) (db : Database) where
  pub record RowValid (r : MachineRow) : Type 0 where
    pub fields :
        validate_machine_fields is_ip r.display_name r.ssh_host r.ssh_port r.ssh_username ≡ ok tt
    pub key : optional_key_valid is_ip decode db r.pinned_host_public_key ≡ ok tt

  abbrev pub AllValid : (ℕ → Option MachineRow) → Type 0
  AllValid rows = (j : ℕ) (r : MachineRow) → rows j ≡ some r → RowValid r

  -- every row of the table passes the validators
  pub record IsSound (s : db.State) : Type 0 where
    pub all_valid : AllValid (db.row s)

  AllValid-KeepsRows :
      (before after : ℕ → Option MachineRow)
      → AllValid before
      → KeepsRows before after
      → AllValid after
  AllValid-KeepsRows before after h same j r e = h j r (sym (same j) ∙ e)

  AllValid-SetsRow :
      (before after : ℕ → Option MachineRow) (id : ℕ) (new : Option MachineRow)
      → AllValid before
      → ((r : MachineRow) → new ≡ some r → RowValid r)
      → SetsRow before after id new
      → AllValid after
  AllValid-SetsRow before after id new h k set j r e = elim (Bool-cases (j == id)) [
    | inl here ↦ k r (ground (arith, set j))
    | inr there ↦ h j r (ground (arith, set j))
  ]

  -- a row that a statement made of valid columns
  RowValid-of_columns :
      (r : MachineRow) {name host : Str} {port : ℕ} {username : Str} {key : Option Str}
      → validate_machine_fields is_ip name host port username ≡ ok tt
      → optional_key_valid is_ip decode db key ≡ ok tt
      → r.display_name ≡ name
      → r.ssh_host ≡ host
      → r.ssh_port ≡ port
      → r.ssh_username ≡ username
      → r.pinned_host_public_key ≡ key
      → RowValid r
  RowValid-of_columns r fields_ok key_ok n h p u k = record {
    fields = simp (n, h, p, u) fields_ok;
    key = ap (optional_key_valid is_ip decode db) k ∙ key_ok;
  }

  only : (row : MachineRow) → RowValid row → (r : MachineRow) → some row ≡ some r → RowValid r
  only row v r e = subst RowValid (some-injective row r e) v

  module _ (before after : ℕ → Option MachineRow) (id : ℕ) (row : MachineRow) (h : AllValid before)
      (set : SetsRow before after id (some row)) where
    Inserted-AllValid :
        {name host : Str} {port : ℕ} {username : Str} {key : Option Str}
        → validate_machine_fields is_ip name host port username ≡ ok tt
        → optional_key_valid is_ip decode db key ≡ ok tt
        → Inserted id name host port username key row
        → AllValid after
    Inserted-AllValid fields_ok key_ok c =
        AllValid-SetsRow before after id (some row) h
          (only row (
            RowValid-of_columns row fields_ok key_ok c.display_name c.ssh_host c.ssh_port
              c.ssh_username c.pinned_host_public_key))
          set

    FieldsUpdated-AllValid :
        {name host : Str} {port : ℕ} {username : Str} (old : MachineRow)
        → validate_machine_fields is_ip name host port username ≡ ok tt
        → before id ≡ some old
        → FieldsUpdated old name host port username row
        → AllValid after
    FieldsUpdated-AllValid old fields_ok held c =
        AllValid-SetsRow before after id (some row) h
          (only row (
            RowValid-of_columns row fields_ok (h id old held).key c.display_name c.ssh_host
              c.ssh_port c.ssh_username c.pinned_host_public_key))
          set

    KeyUpdated-AllValid :
        {key : Option Str} (old : MachineRow)
        → optional_key_valid is_ip decode db key ≡ ok tt
        → before id ≡ some old
        → KeyUpdated old key row
        → AllValid after
    KeyUpdated-AllValid old key_ok held c =
        AllValid-SetsRow before after id (some row) h
          (only row (
            RowValid-of_columns row (h id old held).fields key_ok c.display_name c.ssh_host
              c.ssh_port c.ssh_username c.pinned_host_public_key))
          set

  module _ (laws : IsDatabase db) (s : db.State) (h : IsSound s) (id : ℕ) where
    pub insert-IsSound :
        (input : CreateMachine)
        → create_valid is_ip decode db input ≡ ok tt
        → optional_key_valid is_ip decode db input.pinned_host_public_key ≡ ok tt
        → IsSound (send_insert is_ip decode db id input s).1
    insert-IsSound input fields_ok key_ok = record {
      all_valid = elim (Result-cases sent.0) [
        | inl (row, answered) ↦
            let (c, rows) = laws.insert_ok s id name host port username key row answered in
            Inserted-AllValid (db.row s) (db.row sent.1) id row h.all_valid rows fields_ok key_ok c
        | inr (e, refused) ↦ elim (laws.insert_err s id name host port username key e refused) [
          | inl same ↦ AllValid-KeepsRows (db.row s) (db.row sent.1) h.all_valid same
          | inr (lost, (row, c, rows)) ↦
              Inserted-AllValid (db.row s) (db.row sent.1) id row h.all_valid rows fields_ok key_ok
                c
        ]
      ];
    }
      where
        open input use {
          display_name as name, ssh_host as host, ssh_port as port, ssh_username as username,
          pinned_host_public_key as key,
        }

        sent : Result SqlxError MachineRow × db.State
        sent = db.insert id name host port username key s

    pub update_fields-IsSound :
        (input : UpdateMachine)
        → update_valid is_ip db input ≡ ok tt
        → IsSound (send_update is_ip db id input s).1
    update_fields-IsSound input fields_ok = record {
      all_valid = elim (Result-cases sent.0) [
        | inl (some row, answered) ↦
            let ((old, held, c), rows) =
              laws.update_fields_some s id name host port username row answered in
            FieldsUpdated-AllValid (db.row s) (db.row sent.1) id row h.all_valid rows old fields_ok
              held c
        | inl (none, answered) ↦
            AllValid-KeepsRows (db.row s) (db.row sent.1) h.all_valid
              (laws.update_fields_none s id name host port username answered).1
        | inr (e, refused) ↦ elim (laws.update_fields_err s id name host port username e refused) [
          | inl same ↦ AllValid-KeepsRows (db.row s) (db.row sent.1) h.all_valid same
          | inr (lost, (old, row, held, c, rows)) ↦
              FieldsUpdated-AllValid (db.row s) (db.row sent.1) id row h.all_valid rows old
                fields_ok held c
        ]
      ];
    }
      where
        open input use {
          display_name as name, ssh_host as host, ssh_port as port, ssh_username as username,
        }

        sent : Result SqlxError (Option MachineRow) × db.State
        sent = db.update_fields id name host port username s

    pub update_key-IsSound :
        (key : Option Str)
        → optional_key_valid is_ip decode db key ≡ ok tt
        → IsSound (set_host_key db id key s).1
    unfolding set_host_key
    update_key-IsSound key key_ok = record {
      all_valid = elim (Result-cases (db.update_key id key s).0) [
        | inl (some row, answered) ↦
            let ((old, held, c), rows) = laws.update_key_some s id key row answered in
            KeyUpdated-AllValid (db.row s) (db.row (db.update_key id key s).1) id row h.all_valid
              rows old key_ok held c
        | inl (none, answered) ↦
            AllValid-KeepsRows (db.row s) (db.row (db.update_key id key s).1) h.all_valid
              (laws.update_key_none s id key answered).1
        | inr (e, refused) ↦ elim (laws.update_key_err s id key e refused) [
          | inl same ↦
              AllValid-KeepsRows (db.row s) (db.row (db.update_key id key s).1) h.all_valid same
          | inr (lost, (old, row, held, c, rows)) ↦
              KeyUpdated-AllValid (db.row s) (db.row (db.update_key id key s).1) id row h.all_valid
                rows old key_ok held c
        ]
      ];
    }

    delete-IsSound : IsSound (delete db id s).1
    unfolding delete
    delete-IsSound = record {
      all_valid = elim (Result-cases (db.delete id s).0) [
        | inl (n, answered) ↦ emptied (laws.delete_ok s id n answered).1
        | inr (e, refused) ↦ elim (laws.delete_err s id e refused) [
          | inl same ↦ AllValid-KeepsRows (db.row s) (db.row (db.delete id s).1) h.all_valid same
          | inr (lost, rows) ↦ emptied rows
        ]
      ];
    }
      where
        emptied :
            SetsRow (db.row s) (db.row (db.delete id s).1) id none
            → AllValid (db.row (db.delete id s).1)
        emptied rows =
            AllValid-SetsRow (db.row s) (db.row (db.delete id s).1) id none h.all_valid (λ r e. cc)
              rows

-- the calls that a client can make
pub data Call : Type 0 where
  create_call : ℕ → CreateMachine → Call
  get_call : ℕ → Call
  list_call : ℕ → Call
  update_call : ℕ → UpdateMachine → Call
  replace_call : ℕ → Str → Call
  clear_call : ℕ → Call
  delete_call : ℕ → Call

module _ (is_ip : Str → Bool) (decode : Str → Option (List ℕ)) (db : Database) where
  -- the state after one call
  unfoldable pub after : Call → db.State → db.State
  after (create_call id input) s = (create is_ip decode db id input s).1
  after (get_call id) s = (get db id s).1
  after (list_call limit) s = (list db limit s).1
  after (update_call id input) s = (update is_ip db id input s).1
  after (replace_call id key) s = (replace_host_key decode db id key s).1
  after (clear_call id) s = (clear_host_key db id s).1
  after (delete_call id) s = (delete db id s).1

  unfoldable pub after_all : List Call → db.State → db.State
  after_all [] s = s
  after_all (c ∷ cs) s = after_all cs (after c s)

  -- Every method, whether it succeeds, is refused or fails, leaves a table in which every row
  -- passes the validators of the fields and of the pinned key.
  pub after-IsSound :
      (laws : IsDatabase db) (c : Call) (s : db.State)
      → IsSound is_ip decode db s
      → IsSound is_ip decode db (after c s)
  unfolding after create get list update replace_host_key clear_host_key
  after-IsSound laws (create_call id input) s h =
      let send = send_insert is_ip decode db id input s in
      let key_valid = optional_key_valid is_ip decode db input.pinned_host_public_key in
      when_valid-keeps Sound (create_valid is_ip decode db input) s (when_valid key_valid s send) h
        (λ fields_ok.
          when_valid-keeps Sound key_valid s send h
            (insert-IsSound is_ip decode db laws s h id input fields_ok))
    where
      Sound : db.State → Type 0
      Sound = IsSound is_ip decode db
  after-IsSound laws (get_call id) s h = record {
    all_valid =
        AllValid-KeepsRows is_ip decode db (db.row s) (db.row (db.select_one id s).1) h.all_valid
          (laws.select_one_keeps s id);
  }
  after-IsSound laws (list_call limit) s h =
      when_valid-keeps (IsSound is_ip decode db) (validate_list_limit limit) s
        (reply_page (db.select_page limit s).0, (db.select_page limit s).1) h
        (λ _. record {
          all_valid =
              AllValid-KeepsRows is_ip decode db (db.row s) (db.row (db.select_page limit s).1)
                h.all_valid (laws.select_page_keeps s limit);
        })
  after-IsSound laws (update_call id input) s h =
      when_valid-keeps (IsSound is_ip decode db) (update_valid is_ip db input) s
        (send_update is_ip db id input s) h
        (update_fields-IsSound is_ip decode db laws s h id input)
  after-IsSound laws (replace_call id key) s h =
      when_valid-keeps (IsSound is_ip decode db) (validate_host_public_key decode key) s
        (set_host_key db id (some key) s) h
        (update_key-IsSound is_ip decode db laws s h id (some key))
  after-IsSound laws (clear_call id) s h = update_key-IsSound is_ip decode db laws s h id none refl
  after-IsSound laws (delete_call id) s h = delete-IsSound is_ip decode db laws s h id

  pub after_all-IsSound :
      (laws : IsDatabase db) (cs : List Call) (s : db.State)
      → IsSound is_ip decode db s
      → IsSound is_ip decode db (after_all cs s)
  unfolding after_all
  after_all-IsSound laws [] s h = h
  after_all-IsSound laws (c ∷ cs) s h =
      after_all-IsSound laws cs (after c s) (after-IsSound laws c s h)
