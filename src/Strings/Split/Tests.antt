-- ===== src/Strings/Split/Tests.antt =====
-- Splits of addresses.
use fast_dcs.Common.{◌≡◌, refl, [], ◌∷◌, arith}
use fast_dcs.Common.Texts.{codes}
use fast_dcs.Strings.Join.{join_strings}
use fast_dcs.Strings.Split.{skip, token, split_string_using, is_delim, index_of}
use fast_dcs.Strings.Split.Parts.{split_string_using-join_strings}

two_masters : split_string_using (codes ";a:1;;b:2;") (codes ";") ≡ codes "a:1" ∷ codes "b:2" ∷ []
unfolding split_string_using skip token
two_masters = refl

fruit :
    split_string_using (codes "apple orange-banana") (codes "- ")
    ≡ codes "apple" ∷ codes "orange" ∷ codes "banana" ∷ []
unfolding split_string_using index_of is_delim
fruit = refl

split_string_using-join_strings_example :
    split_string_using (join_strings (codes "a:1" ∷ codes "b:2" ∷ []) (b';' ∷ [])) (codes ";")
    ≡ codes "a:1" ∷ codes "b:2" ∷ []
unfolding is_delim
split_string_using-join_strings_example =
    split_string_using-join_strings (codes "a:1" ∷ codes "b:2" ∷ []) b';' (codes ";") refl
      (ground arith)
