-- ===== src/Engine/Statements/Execute/Sound.antt =====
-- What holds of the databases whatever statements are executed.
use dbms_project_sp.Base.{
  ℕ, ◌≤◌, ◌≡◌, ◌⊎◌, inl, inr, refl, Bool, true, false, List, [], some, if◌then◌else◌, Bytes,
  bytes_eq, bytes_eq_iff, Bool-cases, Option-cases, arith, Result, ok, err,
}
use dbms_project_sp.Base.Dict.{
  find, put, drop_key, Unique, find-put, find-drop_key, put-Unique, drop_key-Unique, AllValues,
  AllValues-find, AllValues-put, AllValues-drop_key, AllValues-map,
}
use dbms_project_sp.Storage.Table.{Table}
use dbms_project_sp.Storage.Dbms.{
  Database, Dbms, DbmsError, create_database, drop_database, use_database, active_db,
  require_database, require_table,
}
use dbms_project_sp.Engine.Statements.Tables.{HasRoom, HasRoom-fewer}
use dbms_project_sp.Engine.Statements.Execute.{resolve_database, put_database}

-- Every table is well formed with ids left for `n` rows, the names of databases are unique, and the
-- database in use is one of them.
pub record IsDbms {I : Type 0} (n : ℕ) (d : Dbms I) : Type 0 where
  pub tables : AllValues (AllValues (HasRoom n)) d.databases
  pub unique : Unique d.databases
  pub in_use : (d.active ≡ []) ⊎ ((db : Database I) × (find d.active d.databases ≡ some db))

module _ {I : Type 0} where
  pub IsDbms-fewer : (m n : ℕ) (d : Dbms I) → m ≤ n → IsDbms n d → IsDbms m d
  IsDbms-fewer m n d l w = record {
    tables =
        AllValues-map (AllValues (HasRoom n)) (AllValues (HasRoom m)) d.databases
          (λ db h. AllValues-map (HasRoom n) (HasRoom m) db (λ t. HasRoom-fewer m n t l) h)
          w.tables;
    unique = w.unique;
    in_use = w.in_use;
  }

  find-put-some :
      (k j : Bytes) (db : Database I) (m : List (Bytes × Database I)) {old : Database I}
      → find j m ≡ some old
      → (x : Database I) × (find j (put k db m) ≡ some x)
  find-put-some k j db m {old} h = elim (Bool-cases (bytes_eq k j)) [
    | inl e ↦ (db, ground (arith, e, find-put k j db m))
    | inr e ↦ (old, ground (arith, e, h, find-put k j db m))
  ]

  pub put_database-IsDbms :
      (n : ℕ) (name : Bytes) (db : Database I) (d : Dbms I)
      → AllValues (HasRoom n) db
      → IsDbms n d
      → IsDbms n (put_database name db d)
  put_database-IsDbms n name db d h w = record {
    tables = AllValues-put (AllValues (HasRoom n)) name db d.databases h w.tables;
    unique = put-Unique name db d.databases w.unique;
    in_use = elim w.in_use [
      | inl e ↦ inl e
      | inr (old, e) ↦ inr (find-put-some name d.active db d.databases e)
    ];
  }

  pub create_database-IsDbms :
      (n : ℕ) (name : Bytes) (d : Dbms I) → IsDbms n d → IsDbms n (create_database name d).0
  unfolding create_database
  create_database-IsDbms n name d w = elim (Option-cases (find name d.databases)) [
    | inl e ↦ rw (e, create_database) (put_database-IsDbms n name [] d tt w)
    | inr (db, e) ↦ rw (e, create_database) w
  ]

  pub use_database-IsDbms :
      (n : ℕ) (name : Bytes) (d : Dbms I) → IsDbms n d → IsDbms n (use_database name d).0
  unfolding use_database
  use_database-IsDbms n name d w = elim (Option-cases (find name d.databases)) [
    | inl e ↦ rw (e, use_database) w
    | inr (db, e) ↦
        rw (e, use_database) (record { tables = w.tables; unique = w.unique; in_use = inr (db, e) })
  ]

  dropped-in_use :
      (name : Bytes) (d : Dbms I) (n : ℕ)
      → IsDbms n d
      → (b : Bool) → bytes_eq d.active name ≡ b
      → ((if b then [] else d.active) ≡ [])
        ⊎ ((db : Database I) × (find (if b then [] else d.active) (drop_key name d.databases)
              ≡ some db))
  dropped-in_use name d n w true e = inl refl
  dropped-in_use name d n w false e = elim w.in_use [
    | inl k ↦ inl k
    | inr (db, k) ↦ inr (
      db,
      ground (
        arith,
        k,
        e,
        find-drop_key name d.active d.databases w.unique,
        bytes_eq_iff name d.active,
        bytes_eq_iff d.active name,
      ),
    )
  ]

  pub drop_database-IsDbms :
      (n : ℕ) (name : Bytes) (d : Dbms I) → IsDbms n d → IsDbms n (drop_database name d).0
  unfolding drop_database
  drop_database-IsDbms n name d w = elim (Option-cases (find name d.databases)) [
    | inl e ↦ rw (e, drop_database) w
    | inr (db, e) ↦
        rw (e, drop_database)
          (record {
            tables = AllValues-drop_key (AllValues (HasRoom n)) name d.databases w.tables;
            unique = drop_key-Unique name d.databases w.unique;
            in_use = dropped-in_use name d n w (bytes_eq d.active name) refl;
          })
  ]

  require-tables :
      (n : ℕ) (name : Bytes) (d : Dbms I) {db : Database I}
      → IsDbms n d
      → require_database name d ≡ ok db
      → AllValues (HasRoom n) db
  unfolding require_database
  require-tables n name d w h =
      AllValues-find (AllValues (HasRoom n)) name d.databases w.tables (ground arith)

  named :
      (name : Bytes) (r : Result DbmsError (Database I)) {found : Bytes × Database I}
      → (elim r [ err e ↦ err e | ok db ↦ ok (name, db) ]) ≡ ok found
      → r ≡ ok found.1
  named name (ok db) h = ground arith
  named name (err e) h = absurd (ground arith)

  active-tables :
      (n : ℕ) (d : Dbms I) {db : Database I}
      → IsDbms n d
      → active_db d ≡ ok db
      → AllValues (HasRoom n) db
  unfolding active_db
  active-tables n d w h = elim (Bool-cases (bytes_eq d.active [])) [
    | inl e ↦ absurd (ground (arith, rw (e, active_db) at h))
    | inr e ↦ require-tables n d.active d w (rw (e, active_db) at h)
  ]

  pub resolve-tables :
      (n : ℕ) (name : Bytes) (d : Dbms I) {found : Bytes × Database I}
      → IsDbms n d
      → resolve_database name d ≡ ok found
      → AllValues (HasRoom n) found.1
  unfolding resolve_database
  resolve-tables n name d w h = elim (Bool-cases (bytes_eq name [])) [
    | inl e ↦ active-tables n d w (named d.active (active_db d) (rw (e, resolve_database) at h))
    | inr e ↦
        require-tables n name d w
          (named name (require_database name d) (rw (e, resolve_database) at h))
  ]

  pub require_table-HasRoom :
      (n : ℕ) (name : Bytes) (db : Database I) {t : Table I}
      → AllValues (HasRoom n) db
      → require_table name db ≡ ok t
      → HasRoom n t
  unfolding require_table
  require_table-HasRoom n name db h e = AllValues-find (HasRoom n) name db h (ground arith)
