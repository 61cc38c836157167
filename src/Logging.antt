-- ===== src/Logging.antt =====
-- internal/observability/logging/logger.go: the logger, its redaction and its levels.
pub mod Secrets
pub mod Redaction
use vyomm.Prelude.{
  ℕ, String, Bool, true, false, not, ◌&&◌, Option, none, some, List, [], ◌∷◌, ◌++◌, map, ◌==◌,
  if◌then◌else◌,
}
use vyomm.GoInt.{ℤ, pos, negsuc}
use vyomm.Logging.Secrets.{redact_string}
use vyomm.GoTime.{Time}

-- The keys of the attributes.
abbrev pub key_service : String
key_service = "service"

abbrev pub key_mode : String
key_mode = "mode"

-- The levels of package slog.
abbrev pub level_debug : ℤ
level_debug = negsuc 3

abbrev pub level_info : ℤ
level_info = pos 0

abbrev pub level_warn : ℤ
level_warn = pos 4

abbrev pub level_error : ℤ
level_error = pos 8

-- `LevelFromString`; `to_lower` is strings.ToLower.
unfoldable pub level_from_string : (String → String) → String → ℤ
level_from_string to_lower level =
    let l = to_lower level in
    if l == "debug"
    then level_debug
    else if l == "warn"
    then level_warn
    else if l == "error"
    then level_error
    else level_info

-- The value of an attribute: a text, or a value of another kind, such as an error.
pub data AttrValue (V : Type 0) : Type 0 where
  text : List ℕ → AttrValue V
  other : V → AttrValue V

pub record Attr (V : Type 0) : Type 0 where
  pub key : String
  pub value : AttrValue V

-- The `slog.Record` of a call; a text is the list of its runes.
pub record LogRecord (V : Type 0) : Type 0 where
  pub time : Time
  pub level : ℤ
  pub message : List ℕ
  pub pc : ℕ
  pub attrs : List (Attr V)

-- The wrapped `slog.Handler`, whose methods are outside: what WithAttrs, WithGroup and Handle do.
pub record Wrapped (V H R : Type 0) : Type 0 where
  pub give_attrs : H → List (Attr V) → H
  pub open_group : H → String → H
  pub write : H → LogRecord V → R

-- `redactingHandler`
pub record RedactingHandler (H : Type 0) : Type 0 where
  pub inner : H

pub record LogOptions : Type 0 where
  pub service : List ℕ
  pub mode : List ℕ
  pub level : ℤ

-- `redactAttr`; `to_lower` is strings.ToLower on runes.
unfoldable pub redact_attr : {V : Type 0} → (List ℕ → List ℕ) → Attr V → Attr V
unfolding redact_string
redact_attr to_lower a = elim a.value [
  | text s ↦ record { key = a.key; value = text (redact_string to_lower s) }
  | other _ ↦ a
]

module _ {V H R : Type 0} (to_lower : List ℕ → List ℕ) where
  -- `redactingHandler.Handle`
  unfoldable pub handle_record : Wrapped V H R → RedactingHandler H → LogRecord V → R
  unfolding redact_attr redact_string
  handle_record w h r = w.write h.inner record {
    time = r.time;
    level = r.level;
    message = redact_string to_lower r.message;
    pc = r.pc;
    attrs = map (redact_attr to_lower) r.attrs;
  }

  -- `redactingHandler.WithAttrs`
  unfoldable pub with_attrs :
      Wrapped V H R → RedactingHandler H → List (Attr V) → RedactingHandler H
  unfolding redact_attr
  with_attrs w h attrs = record { inner = w.give_attrs h.inner (map (redact_attr to_lower) attrs) }

  -- `redactingHandler.WithGroup`
  unfoldable pub with_group : Wrapped V H R → RedactingHandler H → String → RedactingHandler H
  with_group w h name = record { inner = w.open_group h.inner name }

  -- `New`; `base` is the JSON handler of a level.
  unfoldable pub new_logger : Wrapped V H R → (ℤ → H) → LogOptions → RedactingHandler H
  unfolding with_attrs
  new_logger w base options =
      with_attrs w record { inner = base options.level }
        (record { key = key_service; value = text options.service }
          ∷ record { key = key_mode; value = text options.mode }
          ∷ [])
