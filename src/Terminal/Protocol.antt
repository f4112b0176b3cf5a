-- ===== src/Terminal/Protocol.antt =====
-- frontend/src/lib/protocol.ts: the frontend half of the stream contract.
-- A text frame that arrives stands as what `JSON.parse` makes of it, `none` where that throws;
-- the frames that leave stand as the values that `JSON.stringify` prints.
use m6t.Common.{
  ℕ, List, [], ◌∷◌, Option, none, some, Bool, if◌then◌else◌, Text, text, text_eq, ◌>>=◌,
}
use m6t.Common.Int.{ℤ}

-- The value `JSON.parse` answers with. The numbers are whole.
mutual
  pub data Json : Type 0 where
    null : Json
    bool : Bool → Json
    num : ℤ → Json
    str : Text → Json
    arr : Elems → Json
    obj : Props → Json

  pub data Elems : Type 0 where
    nil : Elems
    cons : Json → Elems → Elems

  pub data Props : Type 0 where
    end : Props
    prop : Text → Json → Props → Props

-- `value[field]` on an object: `none` is `undefined`. A field given twice has its last value.
unfoldable pub property : Text → Props → Option Json
property k end = none
property k (prop j v ps) =
    let rest = property k ps in
    elim rest [ some w ↦ some w | none ↦ if text_eq j k then some v else none ]

-- A frame that the frontend sends: `resizeFrame` and `closeFrame`.
pub data Frame : Type 0 where
  resize_frame : (cols rows : ℕ) → Frame
  close_frame : Frame

pub data ServerMessage : Type 0 where
  exit : ℤ → ServerMessage
  resync : ℤ → ServerMessage
  tree : Text → List Text → ServerMessage
  git : Text → ServerMessage
  health : Text → ServerMessage

pub record Envelope : Type 0 where
  pub type : Text
  pub payload : Option Json

-- An object's properties. `typeof` says "object" of an array too, which has none of these fields.
abbrev properties : Json → Option Props
properties (obj ps) = some ps
properties (arr xs) = some end
properties _ = none

abbrev envelope_of : Props → Option Json → Option Envelope
envelope_of ps (some (str type)) =
    some (record { type = type; payload = property (text "payload") ps })
envelope_of ps _ = none

pub parse_envelope : Option Json → Option Envelope
parse_envelope parsed = do
  value ← parsed
  ps ← properties value
  envelope_of ps (property (text "type") ps)

abbrev a_number : Option Json → Option ℤ
a_number (some (num n)) = some n
a_number _ = none

abbrev a_string : Option Json → Option Text
a_string (some (str s)) = some s
a_string _ = none

-- `dirs.every((d) => typeof d === "string")`, with the strings.
strings : Elems → Option (List Text)
strings nil = some []
strings (cons (str s) xs) = strings xs >>= λ rest. some (s ∷ rest)
strings (cons _ xs) = none

abbrev an_array : Option Json → Option (List Text)
an_array (some (arr xs)) = strings xs
an_array _ = none

pub with_number : Option Json → Text → (ℤ → ServerMessage) → Option ServerMessage
with_number payload field build = do
  value ← payload
  ps ← properties value
  n ← a_number (property field ps)
  some (build n)

pub with_root : Option Json → (Text → Option ServerMessage) → Option ServerMessage
with_root payload build = do
  value ← payload
  ps ← properties value
  root ← a_string (property (text "root") ps)
  build root

pub with_tree_payload : Option Json → (Text → List Text → ServerMessage) → Option ServerMessage
unfolding with_root
with_tree_payload payload build = with_root payload λ root. do
  value ← payload
  ps ← properties value
  dirs ← an_array (property (text "dirs") ps)
  some (build root dirs)

decode_envelope : Envelope → Option ServerMessage
unfolding with_number with_root with_tree_payload strings property
decode_envelope e =
    if text_eq e.type (text "exit")
    then with_number e.payload (text "code") exit
    else if text_eq e.type (text "resync")
    then with_number e.payload (text "droppedBytes") resync
    else if text_eq e.type (text "tree")
    then with_tree_payload e.payload tree
    else if text_eq e.type (text "git")
    then with_root e.payload (λ root. some (git root))
    else if text_eq e.type (text "health")
    then with_root e.payload (λ root. some (health root))
    else none

-- `none` means that the frame is ignored.
unfoldable pub decode_server_message : Option Json → Option ServerMessage
unfolding parse_envelope decode_envelope
decode_server_message raw = parse_envelope raw >>= decode_envelope
