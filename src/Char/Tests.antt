-- ===== src/Char/Tests.antt =====
-- Runs of include/stdromano/char.hpp at concrete characters.
use stdromano.Prelude.{◌≡◌, refl}
use stdromano.Char.{to_lower, to_upper}

to_lower-letter : to_lower b'Q' ≡ b'q'
unfolding to_lower
to_lower-letter = refl

to_upper-bracket : to_upper b'[' ≡ b'['
unfolding to_upper
to_upper-bracket = refl
