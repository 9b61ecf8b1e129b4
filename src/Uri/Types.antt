-- ===== src/Uri/Types.antt =====
-- The types of crates/context-db-core/src/uri.rs, with `ContentLevel` of model.rs. `Arc` shares an
-- immutable value, so a `ContextUri` is the record of its parts.
use uwu_context_db.Prelude.{ℕ, List, Option, Text, text}

pub data ContentLevel : Type 0 where
  l0 l1 l2 : ContentLevel

abbrev pub level_str : ContentLevel → Text
level_str l0 = text "l0"
level_str l1 = text "l1"
level_str l2 = text "l2"

pub data AsOfTime : Type 0 where
  commit : Text → AsOfTime
  timestamp : ℕ → AsOfTime
  latest : AsOfTime

pub record QueryParams : Type 0 where
  pub as_of : Option AsOfTime
  pub level : Option ContentLevel
  pub branch : Option Text
  pub limit : Option ℕ

pub record ContextUri : Type 0 where
  pub tenant : Text
  pub path : List Text
  pub query : Option QueryParams
  pub canonical : Text

pub data UriCategory : Type 0 where
  user agent resources skills wiki sessions state persona metacog character unknown : UriCategory

-- chrono's reader and RFC 3339 printer of time stamps, which the module calls.
pub record TimeFormat : Type 0 where
  pub parse_time : Text → Option ℕ
  pub show_time : ℕ → Text
