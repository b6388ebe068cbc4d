-- ===== src/Strings/Join.antt =====
-- src/utils/join_strings.h.
use fast_dcs.Common.{List, [], ◌∷◌, ◌++◌}
use fast_dcs.Common.Texts.{Text}

-- The loop of `JoinStrings` behind its first round.
unfoldable pub join_rest : List Text → Text → Text → Text
join_rest [] delimiter output = output
join_rest (t ∷ ts) delimiter output = join_rest ts delimiter (output ++ (delimiter ++ t))

unfoldable pub join_strings : List Text → Text → Text
unfolding join_rest
join_strings [] delimiter = []
join_strings (t ∷ ts) delimiter = join_rest ts delimiter ([] ++ t)
