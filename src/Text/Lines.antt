-- ===== src/Text/Lines.antt =====
-- What the lines of both log.cpp and log.c begin with: the time and a coloured tag.
use Prim.Native.String.{String}
use bbd.Prelude.{ℕ, List, ◌∷◌, ◌++◌}
use bbd.Text.{codes, decimal}

-- The escape sequences that both files define.
abbrev pub escape : String → List ℕ
escape s = 27 ∷ codes s

abbrev pub green : List ℕ
green = escape "[0;32m"

abbrev pub red : List ℕ
red = escape "[0;31m"

abbrev pub yellow : List ℕ
yellow = escape "[1;33m"

abbrev pub blue : List ℕ
blue = escape "[0;34m"

abbrev pub purple : List ℕ
purple = escape "[0;35m"

abbrev pub no_color : List ℕ
no_color = escape "[0m"

-- "[%lu] %stag%s: "
abbrev pub stamp : ℕ → List ℕ → List ℕ → List ℕ
stamp now color tag =
    codes "[" ++ (decimal now ++ (codes "] " ++ (color ++ (tag ++ (no_color ++ codes ": ")))))
