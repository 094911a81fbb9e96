-- ===== src/Files/Paths.antt =====
-- `std::path::Path`, by its components; a name is its UTF-8 bytes.
use transferred.Prelude.{Text, codes, List, [], ◌∷◌, Option, some, none, eq_text, if◌then◌else◌}

abbrev pub FilePath : Type 0
FilePath = List Text

-- `file_name`: the last component, unless it is `..`.
unfoldable pub file_name : FilePath → Option Text
file_name [] = none
file_name (name ∷ []) = if eq_text name (codes "..") then none else some name
file_name (name ∷ next ∷ rest) = file_name (next ∷ rest)

-- `with_file_name`: in place of the last component if that is a file name, behind the path if not.
unfoldable pub with_file_name : FilePath → Text → FilePath
with_file_name [] new = new ∷ []
with_file_name (name ∷ []) new = if eq_text name (codes "..") then name ∷ new ∷ [] else new ∷ []
with_file_name (name ∷ next ∷ rest) new = name ∷ with_file_name (next ∷ rest) new
