-- ===== src/Json.antt =====
-- JSON documents as the program decodes them. A number keeps its text, as under `UseNumber`.
use opensearch_api.Prelude.{Bool, Bytes}

mutual
  pub data Json : Type 0 where
    null : Json
    bool : Bool → Json
    num : Bytes → Json
    str : Bytes → Json
    arr : Items → Json
    obj : Members → Json

  pub data Items : Type 0 where
    nil : Items
    cons : Json → Items → Items

  pub data Members : Type 0 where
    end : Members
    member : Bytes → Json → Members → Members
