-- ===== src/Api/Users.antt =====
-- api/api.go, GetUsers: the users of a node, from two queries of the database. The database is a
-- parameter; log.Fatal ends the program.
use ssgo.Prelude.{
  ℕ, ◌≡◌, ◌↔◌, refl, sym, ap, ap₂, subst, ◌∙◌, inl, inr, List, [], ◌∷◌, ◌++◌, Option, none, some,
  map, arith, Bytes, append_assoc, append-nil,
}
use ssgo.Io.{Error, Result, ok, err, ◌>>=◌, Result-cases}
use ssgo.Server.{Key}

-- A row of the first query: the group, and the node's port and cipher; and of the second: a user.
pub record Keys : Type 0 where
  pub port : ℕ
  pub cipher : Bytes

pub record Key2 : Type 0 where
  pub nid : Bytes
  pub wg_key : Bytes
  pub port : ℕ

unfoldable pub merge_to_user_entry : Keys → Key2 → Key
merge_to_user_entry keys key2 = record {
  id = key2.nid;
  port = key2.port;
  cipher = keys.cipher;
  secret = key2.wg_key;
}

-- sql.Rows: what Scan gives for each row that Next finds, and the error that ended the rows, if any.
pub record Rows (A : Type 0) : Type 0 where
  pub scans : List (Result A)
  pub rows_err : Option Error

pub record Database : Type 0 where
  pub query1 : ℕ → Result (Rows (ℕ × Keys))
  pub query2 : ℕ → Result (Rows Key2)

-- How GetUsers ends.
pub data Ended : Type 0 where
  fatal : Error → Ended
  returned : List Key → Ended

-- The inner loop; the error that ended its rows is not asked for.
unfoldable pub add_users : Keys → List (Result Key2) → List Key → Result (List Key)
unfolding merge_to_user_entry
add_users key [] found = ok found
add_users key (err e ∷ scans) found = err e
add_users key (ok key2 ∷ scans) found =
    add_users key scans (found ++ (merge_to_user_entry key key2 ∷ []))

abbrev pub with_rows2 : Keys → List Key → Result (Rows Key2) → Result (List Key)
with_rows2 key found (err e) = err e
with_rows2 key found (ok rows2) = add_users key rows2.scans found

module _ (db : Database) where
  unfoldable pub add_nodes : List (Result (ℕ × Keys)) → List Key → Result (List Key)
  unfolding add_users
  add_nodes [] found = ok found
  add_nodes (err e ∷ scans) found = err e
  add_nodes (ok (group_id, key) ∷ scans) found =
      with_rows2 key found (db.query2 group_id) >>= λ found'. add_nodes scans found'

abbrev pub with_error : Option Error → Result (List Key) → Ended
with_error e (err x) = fatal x
with_error (some e) (ok found) = fatal e
with_error none (ok found) = returned found

abbrev pub with_rows1 : Database → Result (Rows (ℕ × Keys)) → Ended
with_rows1 db (err e) = fatal e
with_rows1 db (ok rows1) = with_error rows1.rows_err (add_nodes db rows1.scans [])

-- GetUsers, on what NewDatabase returns.
unfoldable pub get_users : Result Database → ℕ → Ended
unfolding add_nodes
get_users (err e) node_id = fatal e
get_users (ok db) node_id = with_rows1 db (db.query1 node_id)

-- The users that the rows of the first query stand for: for each node the users of its group, each
-- with its own port and secret and the node's cipher, where every query answers and every row can be
-- read.
pub data Joined (db : Database) : List (Result (ℕ × Keys)) → List Key → Type 0 where
  no_rows : Joined db [] []
  a_row :
      (group_id : ℕ) (key : Keys) (rows2 : Rows Key2) (users : List Key2)
      (scans : List (Result (ℕ × Keys))) (rest : List Key)
      → db.query2 group_id ≡ ok rows2
      → rows2.scans ≡ map ok users
      → Joined db scans rest
      → Joined db (ok (group_id, key) ∷ scans) (map (merge_to_user_entry key) users ++ rest)

add_users-fwd :
    (key : Keys) (scans : List (Result Key2)) (found us : List Key)
    → add_users key scans found ≡ ok us
    → (users : List Key2) × (scans ≡ map ok users)
      × (us ≡ found ++ map (merge_to_user_entry key) users)
unfolding add_users
add_users-fwd key [] found us h =
    let e : found ≡ us = ground arith in ([], refl, sym e ∙ sym (append-nil found))
add_users-fwd key (err e ∷ scans) found us h = ground arith
add_users-fwd key (ok k ∷ scans) found us h =
    let (users, e, r) = add_users-fwd key scans _ us h in
    (k ∷ users, ap (◌∷◌ (ok k)) e, r ∙ append_assoc found (merge_to_user_entry key k ∷ []) _)

add_users-map :
    (key : Keys) (users : List Key2) (found : List Key)
    → add_users key (map ok users) found ≡ ok (found ++ map (merge_to_user_entry key) users)
unfolding add_users
add_users-map key [] found = ap ok (sym (append-nil found))
add_users-map key (k ∷ users) found =
    add_users-map key users (found ++ (merge_to_user_entry key k ∷ []))
    ∙ ap ok (append_assoc found (merge_to_user_entry key k ∷ []) _)

ended-returned :
    (o : Option Error) (r : Result (List Key)) (us : List Key)
    → with_error o r ≡ returned us
    → (o ≡ none) × (r ≡ ok us)
ended-returned none (ok found) us h = (refl, ground arith)
ended-returned (some e) (ok found) us h = ground arith
ended-returned o (err x) us h = ground arith

module _ (db : Database) where
  abbrev go_on : List (Result (ℕ × Keys)) → Result (List Key) → Result (List Key)
  go_on scans r = r >>= λ found. add_nodes db scans found

  add_nodes-fwd :
      (scans : List (Result (ℕ × Keys))) (found us : List Key)
      → add_nodes db scans found ≡ ok us
      → (rest : List Key) × Joined db scans rest × (us ≡ found ++ rest)
  unfolding add_nodes
  add_nodes-fwd [] found us h =
      let e : found ≡ us = ground arith in ([], no_rows, sym e ∙ sym (append-nil found))
  add_nodes-fwd (err e ∷ scans) found us h = ground arith
  add_nodes-fwd (ok (group_id, key) ∷ scans) found us h = elim (Result-cases (db.query2 group_id)) [
    | inr (e, failed) ↦ ground (arith, failed, h)
    | inl (rows2, answered) ↦ elim (Result-cases (add_users key rows2.scans found)) [
      | inr (e, failed) ↦
          let e1 = sym (ap (go_on scans) (ap (with_rows2 key found) answered ∙ failed)) ∙ h in
          ground arith
      | inl (found', read) ↦
          let e1 = sym (ap (go_on scans) (ap (with_rows2 key found) answered ∙ read)) ∙ h in
          let (users, rows, more) = add_users-fwd key rows2.scans found found' read in
          let (rest, j, all) = add_nodes-fwd scans found' us e1 in
          (
            _,
            a_row group_id key rows2 users scans rest answered rows j,
            all ∙ ap (λ f. f ++ rest) more ∙ append_assoc found _ rest,
          )
    ]
  ]

  add_nodes-Joined :
      {scans : List (Result (ℕ × Keys))} {rest : List Key} (found : List Key)
      → Joined db scans rest
      → add_nodes db scans found ≡ ok (found ++ rest)
  unfolding add_nodes
  add_nodes-Joined found no_rows = ap ok (sym (append-nil found))
  add_nodes-Joined found (a_row group_id key rows2 users scans rest answered read j) =
      ap (go_on scans) (
        ap (with_rows2 key found) answered
        ∙ ap (λ s. add_users key s found) read
        ∙ add_users-map key users found)
      ∙ add_nodes-Joined _ j
      ∙ ap ok (append_assoc found _ rest)

  -- GetUsers returns a list exactly where the first query answers, all its rows can be read and end
  -- without an error, and for each row the second query answers and the rows that it gives can be read;
  -- the list is then the users of each node's group, in the order of the rows, each with its own port
  -- and secret and the node's cipher. Everything else ends the program. (An error that ends the rows
  -- of the second query is not noticed.)
  pub get_users-Joined :
      (node_id : ℕ) (us : List Key)
      → (get_users (ok db) node_id ≡ returned us) ↔ (
          (rows1 : Rows (ℕ × Keys)) × (db.query1 node_id ≡ ok rows1)
          × (rows1.rows_err ≡ none)
          × Joined db rows1.scans us)
  unfolding get_users
  get_users-Joined node_id us = (forth, back)
    where
      forth :
          with_rows1 db (db.query1 node_id) ≡ returned us
          → (rows1 : Rows (ℕ × Keys)) × (db.query1 node_id ≡ ok rows1)
            × (rows1.rows_err ≡ none)
            × Joined db rows1.scans us
      forth h = elim (Result-cases (db.query1 node_id)) [
        | inr (e, failed) ↦ let e1 = sym (ap (with_rows1 db) failed) ∙ h in ground arith
        | inl (rows1, answered) ↦
            let e1 = sym (ap (with_rows1 db) answered) ∙ h in
            let (fine, found) = ended-returned rows1.rows_err (add_nodes db rows1.scans []) us e1 in
            let (rest, j, all) = add_nodes-fwd rows1.scans [] us found in
            (rows1, answered, fine, subst (Joined db rows1.scans) (sym all) j)
      ]

      back :
          ((rows1 : Rows (ℕ × Keys)) × (db.query1 node_id ≡ ok rows1)
            × (rows1.rows_err ≡ none)
            × Joined db rows1.scans us)
          → with_rows1 db (db.query1 node_id) ≡ returned us
      back (rows1, answered, fine, j) =
          ap (with_rows1 db) answered ∙ ap₂ with_error fine (add_nodes-Joined [] j)
