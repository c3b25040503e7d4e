-- ===== src/Templating/Written.antt =====
-- charmhelpers/contrib/openstack/templating.py: what `write_all` leaves in the files.
use charm_helpers.Prelude.{
  String, ◌≡◌, List, Bool, true, Option, none, some, is_some, inl, inr, ◌⊎◌, if◌then◌else◌, elem,
  lookup, All,
}
use charm_helpers.Templating.{Renderer, Engine, Files, RenderError, render}

-- the text of an answer
abbrev pub text_of : RenderError ⊎ String → Option String
text_of (inl e) = none
text_of (inr text) = some text

-- Every file of the list can be rendered.
abbrev pub Renders : Engine → Renderer → List String → Type 0
Renders engine r names = All (λ n. is_some (text_of (render engine n r).0) ≡ true) names

-- the files after the list is written
abbrev Holds :
    Engine → Renderer → List String → Files → Option RenderError × (Renderer × Files) → Type 0
Holds engine r names files (e, (r1, files1)) =
    (e ≡ none)
    × ((k : String)
        → lookup k files1
          ≡ (if elem k names then text_of (render engine k r).0 else lookup k files))
