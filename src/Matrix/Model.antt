-- ===== src/Matrix/Model.antt =====
-- The retained messages: plugins/matrix/src/model.rs.
use cdc_badge_plugins.Base.{ℕ, ◌-◌, Bool, ltb, if◌then◌else◌, Option, List, ◌++◌, length, drop}

pub record EncInfo : Type 0 where
  pub session_id : List ℕ
  pub ciphertext : List ℕ
  pub sender_key : List ℕ

pub record Message : Type 0 where
  pub sender : List ℕ
  pub body : List ℕ
  pub encrypted : Bool
  pub enc : Option EncInfo

unfoldable pub push_messages : List Message → List Message → ℕ → List Message
push_messages buf incoming retain =
    let all_messages = buf ++ incoming in
    if ltb retain (length all_messages)
    then drop (length all_messages - retain) all_messages
    else all_messages
