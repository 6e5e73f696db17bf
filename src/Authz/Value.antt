-- ===== src/Authz/Value.antt =====
-- The values that internal/authz reads: what encoding/json puts into an `interface{}`, and
-- `fmt.Sprintf("%v")` of it.
use monkeys_identity.Base.{
  Bool, true, false, String, List, [], ◌∷◌, ◌++◌, Text, codes, text_leb, if◌then◌else◌,
}

-- A number is the text that `%v` prints of it, all that the code reads of a number. The fields of
-- an object have distinct names, in the order in which this run ranges over the map.
mutual
  pub data Value : Type 0 where
    null : Value
    bool : Bool → Value
    num : Text → Value
    str : String → Value
    arr : Values → Value
    obj : Fields → Value

  pub data Values : Type 0 where
    nil : Values
    cons : Value → Values → Values

  pub data Fields : Type 0 where
    end : Fields
    field : String → Value → Fields → Fields

abbrev pub elems : Values → List Value
elems nil = []
elems (cons v vs) = v ∷ elems vs

abbrev pub fields : Fields → List (String × Value)
fields end = []
fields (field k v fs) = (k, v) ∷ fields fs

-- `fmt` prints a map by ascending keys.
insert_entry : Text × Text → List (Text × Text) → List (Text × Text)
insert_entry e [] = e ∷ []
insert_entry (k, v) ((j, w) ∷ es) =
    if text_leb k j then (k, v) ∷ (j, w) ∷ es else (j, w) ∷ insert_entry (k, v) es

join_entries : List (Text × Text) → Text
join_entries [] = []
join_entries ((k, v) ∷ []) = k ++ (codes ":" ++ v)
join_entries ((k, v) ∷ e ∷ es) = k ++ (codes ":" ++ (v ++ (codes " " ++ join_entries (e ∷ es))))

join_words : List Text → Text
join_words [] = []
join_words (w ∷ []) = w
join_words (w ∷ x ∷ ws) = w ++ (codes " " ++ join_words (x ∷ ws))

-- `fmt.Sprintf("%v", v)`
unfoldable mutual
  unfolding insert_entry join_entries join_words

  pub sprint : Value → Text
  sprint null = codes "<nil>"
  sprint (bool true) = codes "true"
  sprint (bool false) = codes "false"
  sprint (num t) = t
  sprint (str s) = codes s
  sprint (arr vs) = codes "[" ++ (join_words (sprint_all vs) ++ codes "]")
  sprint (obj fs) = codes "map[" ++ (join_entries (sprint_fields fs) ++ codes "]")

  pub sprint_all : Values → List Text
  sprint_all nil = []
  sprint_all (cons v vs) = sprint v ∷ sprint_all vs

  pub sprint_fields : Fields → List (Text × Text)
  sprint_fields end = []
  sprint_fields (field k v fs) = insert_entry (codes k, sprint v) (sprint_fields fs)
