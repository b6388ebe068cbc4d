-- ===== src/Strings/Helpers/Tests.antt =====
-- Runs of the functions of string_util.cc, and the theorems there.
use fast_dcs.Common.{◌≡◌, refl, some, arith}
use fast_dcs.Common.Texts.{codes}
use fast_dcs.Strings.Helpers.{string_replace}
use fast_dcs.Strings.Helpers.Replace.{replaced, string_replace-replaced}

overlapping : string_replace (codes "aaab") (codes "aa") (codes "xa") ≡ some (codes "xaab")
unfolding string_replace
overlapping = refl

string_replace-replaced_example :
    string_replace (codes "a.b.c") (codes ".") (codes "::")
    ≡ some (replaced (codes ".") (codes "::") 0 (codes "a.b.c"))
string_replace-replaced_example =
    string_replace-replaced (codes "a.b.c") (codes ".") (codes "::") (omega arith)
