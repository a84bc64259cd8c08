-- ===== src/Base/Text/Splits.antt =====
-- Texts that are joined by commas are split at them into the same texts.
use Prim.Native.Char.{Char, code}
use Prim.Native.String.{String, [], ◌∷◌, ◌++◌}
use mathlib.Core.Path.{◌≡◌, refl, ap, ◌∙◌}
use mathlib.Core.Logic.{◌≢◌}
use mathlib.Core.Bool.{false}
use mathlib.Core.List.{List}
use native.Mathlib.Omega.{arith}
use text.Mathlib.TextLemmas.{nil-append, cons-append}
use openshift_online_rosa_e.Base.Tests.{eqb}
use openshift_online_rosa_e.Base.Lists.{All}
use openshift_online_rosa_e.Base.Text.{contains, has_prefix, split_commas, join}

abbrev pub HasNoComma : String → Type 0
HasNoComma s = contains s "," ≡ false

no_comma_cons :
    (c : Char) (s : String) → HasNoComma (c ∷ s) → (eqb (code c) b',' ≡ false) × HasNoComma s
unfolding contains has_prefix
no_comma_cons c s h = ground arith

split_commas_alone : (s : String) → HasNoComma s → split_commas s ≡ List.◌∷◌ s List.[]
unfolding split_commas
split_commas_alone [] h = refl
split_commas_alone (c ∷ s) h =
    let (other, rest) = no_comma_cons c s h in rw (other, split_commas_alone s rest) refl

split_commas-append :
    (s r : String) → HasNoComma s → split_commas (s ++ ("," ++ r)) ≡ List.◌∷◌ s (split_commas r)
unfolding split_commas
split_commas-append [] r h =
    ap split_commas
      (nil-append ("," ++ r) ∙ cons-append "," [] r ∙ ap (λ t. "," ∷ t) (nil-append r))
split_commas-append (c ∷ s) r h =
    let (other, rest) = no_comma_cons c s h in
    ap split_commas (cons-append c s ("," ++ r)) ∙ rw (other, split_commas-append s r rest) refl

pub split_commas-join :
    (parts : List String)
    → parts ≢ List.[]
    → All HasNoComma parts
    → split_commas (join parts ",") ≡ parts
unfolding join
split_commas-join List.[] given h = absurd (given refl)
split_commas-join (List.◌∷◌ part List.[]) given h = split_commas_alone part h.0
split_commas-join (List.◌∷◌ part (List.◌∷◌ next rest)) given h =
    split_commas-append part (join (List.◌∷◌ next rest) ",") h.0
    ∙ ap (λ l. List.◌∷◌ part l) (split_commas-join (List.◌∷◌ next rest) (λ e. cc) h.1)
