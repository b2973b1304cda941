-- ===== src/Text/Ctype.antt =====
-- <ctype.h> in the C locale.
use dbgbus.Base.{ℕ, ◌+◌, Bool, ◌&&◌, ◌||◌, leb, ◌==◌, if◌then◌else◌}

abbrev pub isdigit : ℕ → Bool
isdigit c = leb b'0' c && leb c b'9'

-- Space, and \t \n \v \f \r.
abbrev pub isspace : ℕ → Bool
isspace c = c == 32 || (leb 9 c && leb c 13)

abbrev pub isupper : ℕ → Bool
isupper c = leb b'A' c && leb c b'Z'

abbrev pub islower : ℕ → Bool
islower c = leb b'a' c && leb c b'z'

abbrev pub isalpha : ℕ → Bool
isalpha c = isupper c || islower c

abbrev pub tolower : ℕ → ℕ
tolower c = if isupper c then c + 32 else c

-- A character that prints and is no space.
abbrev pub isgraph : ℕ → Bool
isgraph c = leb 33 c && leb c 126
