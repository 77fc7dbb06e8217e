-- ===== src/Base/StringSet.antt =====
-- `std::set<std::string>`: a list that `insert` keeps strictly ascending, so that it is iterated in
-- the order of the strings.
use mathlib.Core.Path.{◌≡◌, refl}
use mathlib.Core.Bool.{Bool, true, false, ◌||◌}
use mathlib.Core.List.{List, [], ◌∷◌}
use native.Mathlib.Omega.{arith}
use blue_workspace_build.Base.Tests.{if◌then◌else◌}
use blue_workspace_build.Base.Texts.{Text, text_eq, text_lt, text_eq_iff, text_lt_total}

abbrev pub StringSet : Type 0
StringSet = List Text

-- `count(s) != 0`.
unfoldable pub contains : Text → StringSet → Bool
contains s [] = false
contains s (t ∷ ts) = text_eq t s || contains s ts

unfoldable pub insert : Text → StringSet → StringSet
insert s [] = s ∷ []
insert s (t ∷ ts) =
    if text_eq t s then t ∷ ts else if text_lt s t then s ∷ t ∷ ts else t ∷ insert s ts

-- `insert(first, last)`.
unfoldable pub insert_all : StringSet → StringSet → StringSet
unfolding insert
insert_all [] ts = ts
insert_all (s ∷ ss) ts = insert_all ss (insert s ts)

unfoldable pub erase : Text → StringSet → StringSet
erase s [] = []
erase s (t ∷ ts) = if text_eq t s then erase s ts else t ∷ erase s ts

pub contains-insert :
    (s u : Text) (ts : StringSet) → contains u (insert s ts) ≡ (text_eq s u || contains u ts)
unfolding contains insert
contains-insert s u [] = refl
contains-insert s u (t ∷ ts) =
    ground (arith, text_eq_iff t s, text_eq_iff t u, text_eq_iff s u, contains-insert s u ts)

pub contains-erase :
    (s u : Text) (ts : StringSet)
    → contains u (erase s ts) ≡ (if text_eq s u then false else contains u ts)
unfolding contains erase
contains-erase s u [] = ground arith
contains-erase s u (t ∷ ts) =
    ground (arith, text_eq_iff t s, text_eq_iff t u, text_eq_iff s u, contains-erase s u ts)

-- The entries ascend strictly above `s`.
abbrev pub AscendsFrom : Text → StringSet → Type 0
AscendsFrom s [] = Unit {0}
AscendsFrom s (t ∷ ts) = (text_lt s t ≡ true) × AscendsFrom t ts

abbrev pub IsAscending : StringSet → Type 0
IsAscending [] = Unit {0}
IsAscending (t ∷ ts) = AscendsFrom t ts

insert-AscendsFrom :
    (b s : Text) (ts : StringSet)
    → text_lt b s ≡ true
    → AscendsFrom b ts
    → AscendsFrom b (insert s ts)
unfolding insert
insert-AscendsFrom b s [] h a = (h, tt)
insert-AscendsFrom b s (t ∷ ts) h a =
    ground (arith, text_eq_iff t s, text_lt_total s t, insert-AscendsFrom t s ts, text_eq_iff s t)

pub insert-IsAscending : (s : Text) (ts : StringSet) → IsAscending ts → IsAscending (insert s ts)
unfolding insert
insert-IsAscending s [] a = tt
insert-IsAscending s (t ∷ ts) a =
    ground (arith, text_eq_iff t s, text_eq_iff s t, text_lt_total s t, insert-AscendsFrom t s ts)
