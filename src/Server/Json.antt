-- ===== src/Server/Json.antt =====
-- Values of JSON, as the server gets them from requests and from the Realtime Database. Negative and
-- fractional numbers are left out. An object's properties are a dictionary.
use purrivacy_app.Prelude.{ℕ, String, Bool, List, [], ◌∷◌}
use purrivacy_app.Prelude.Dict.{Dict}

mutual
  pub data Json : Type 0 where
    null : Json
    bool : Bool → Json
    num : ℕ → Json
    str : String → Json
    arr : Elements → Json
    obj : Properties → Json

  pub data Elements : Type 0 where
    no_more : Elements
    element : Json → Elements → Elements

  pub data Properties : Type 0 where
    end : Properties
    property : String → Json → Properties → Properties

-- `Object.entries`
abbrev pub entries : Properties → Dict Json
entries end = []
entries (property k v ps) = (k, v) ∷ entries ps

abbrev pub elements : Elements → List Json
elements no_more = []
elements (element v vs) = v ∷ elements vs
