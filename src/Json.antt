-- ===== src/Json.antt =====
-- JSON values, as `Prisma.JsonValue` has them. The lists of items and of fields are types of their
-- own beside the value.
use silo_core.Base.{String, Bool}
use silo_core.Base.Int.{Number}

mutual
  pub data Json : Type 0 where
    null : Json
    bool : Bool → Json
    number : Number → Json
    text : String → Json
    array : Items → Json
    object : Fields → Json

  pub data Items : Type 0 where
    nil : Items
    cons : Json → Items → Items

  pub data Fields : Type 0 where
    end : Fields
    field : String → Json → Fields → Fields
