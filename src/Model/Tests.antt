-- ===== src/Model/Tests.antt =====
-- The names of two nodes' resources.
use gost_webui.Prelude.{String}

abbrev one : String
one = "a1"

abbrev two : String
two = "b2"
