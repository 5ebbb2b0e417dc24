-- ===== src/Server/Append.antt =====
-- Texts that are put together.
use Prim.Native.Char.{Char}
use Prim.Native.String.{String, ◌++◌}
use Prim.Native.String.append
use purrivacy_app.Prelude.{◌≡◌, ap, ◌∙◌}

pub append_empty : (s : String) → String.[] ++ s ≡ s
append_empty s i = append.nil s i

pub append_cons : (c : Char) (s t : String) → String.◌∷◌ c s ++ t ≡ String.◌∷◌ c (s ++ t)
append_cons c s t i = append.cons c s t i

pub append_one : (c : Char) (s : String) → String.◌∷◌ c String.[] ++ s ≡ String.◌∷◌ c s
append_one c s = append_cons c String.[] s ∙ ap (λ (t : String). String.◌∷◌ c t) (append_empty s)
