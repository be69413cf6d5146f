-- ===== src/Dns/Labels.antt =====
-- dnsname_to_labels of evdns.c with the table of names that it compresses by. The buffer is the list
-- of the bytes before `j`; those behind are not read.
use practising.Base.{
  ℕ, zero, suc, ◌+◌, ◌/◌, ◌%◌, Bool, true, false, ◌&&◌, Option, none, some, List, [], ◌∷◌, ◌++◌,
  length, last?, ◌==◌, ltb, leb, if◌then◌else◌,
}

-- struct dnslabel_table; a pointer to one may be NULL, `none`.
abbrev pub Table : Type 0
Table = List (List ℕ × ℕ)

-- What dnsname_to_labels does: a write behind the buffer, its -1 or -2, or the bytes and the table.
pub data Written : Type 0 where
  overrun too_long no_room : Written
  written : List ℕ → Option Table → Written

-- strcmp of two strings, as a test for 0.
unfoldable pub same_string : List ℕ → List ℕ → Bool
same_string [] [] = true
same_string [] (y ∷ ys) = false
same_string (x ∷ xs) [] = false
same_string (x ∷ xs) (y ∷ ys) = x == y && same_string xs ys

unfoldable pub dnslabel_table_get_pos : Table → List ℕ → Option ℕ
dnslabel_table_get_pos [] label = none
dnslabel_table_get_pos ((v, pos) ∷ t) label =
    if same_string label v then some pos else dnslabel_table_get_pos t label

unfoldable pub get_pos : Option Table → List ℕ → Option ℕ
get_pos none label = none
get_pos (some t) label = dnslabel_table_get_pos t label

-- dnslabel_table_add, where the caller does not read its result.
unfoldable pub dnslabel_table_add : (List ℕ → Bool) → Option Table → List ℕ → ℕ → Option Table
dnslabel_table_add strdup none label pos = none
dnslabel_table_add strdup (some t) label pos =
    if length t == 128
    then some t
    else if strdup label
    then some (t ++ (label, pos) ∷ [])
    else some t

-- The label before the first dot, and what is behind that dot: strchr.
unfoldable pub cut_dot : List ℕ → List ℕ × Option (List ℕ)
cut_dot [] = ([], none)
cut_dot (c ∷ name) =
    let (label, rest) = cut_dot name in if c == b'.' then ([], some name) else (c ∷ label, rest)

-- htons, and the copy of its two bytes.
abbrev pub bytes16 : ℕ → List ℕ
bytes16 x = (x / 256 % 256) ∷ (x % 256) ∷ []

-- The end of dnsname_to_labels.
unfoldable pub terminated : ℕ → List ℕ → Option Table → Option ℕ → Written
terminated buf_len out table none =
    if leb buf_len (length out) then overrun else written (out ++ 0 ∷ []) table
terminated buf_len out table (some last) =
    if last == 0
    then written out table
    else if leb buf_len (length out)
    then overrun
    else written (out ++ 0 ∷ []) table

module _ (strdup : List ℕ → Bool) (buf_len : ℕ) where
  -- The loop of dnsname_to_labels, a round for each label; `none` means that the fuel ran out.
  unfoldable pub put_labels : ℕ → List ℕ → List ℕ → Option Table → Option Written
  put_labels zero out name table = none
  put_labels (suc fuel) out name table =
      let (label, rest) = cut_dot name in
      let table' = dnslabel_table_add strdup table name (length out) in
      let out' = out ++ length label ∷ label in
      elim (get_pos table name) [
        | some ref ↦ some (
            if ltb buf_len (length out + 2)
            then no_room
            else written (out ++ bytes16 (ref % 16384 + 49152)) table)
        | none ↦
            if ltb 63 (length label)
            then some too_long
            else if ltb buf_len (length out + length label + 1)
            then some no_room
            else elim rest [
              | none ↦ some (terminated buf_len out' table' (last? out'))
              | some name' ↦ put_labels fuel out' name' table'
            ]
      ]

  unfoldable pub dnsname_to_labels : List ℕ → List ℕ → Option Table → Option Written
  dnsname_to_labels out name table =
      if ltb 255 (length name) then some no_room else put_labels (length name + 1) out name table
