-- ===== src/Base/Message.antt =====
-- A message for people: the pieces of the source's f-string, not yet formatted.
use robotic_character_interf.Base.{ℕ, String, List, [], ◌∷◌}
use robotic_character_interf.Base.Float.{Float}

pub data Part : Type 0 where
  lit : String → Part
  text : List ℕ → Part
  name : String → Part
  num : Float → Part
  int : ℕ → Part

abbrev pub Message : Type 0
Message = List Part

abbrev pub say : String → Message
say s = lit s ∷ []
