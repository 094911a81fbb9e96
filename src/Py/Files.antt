-- ===== src/Py/Files.antt =====
-- crates/transferred-py/src/files.rs: the arguments of the file classes.
use transferred.Prelude.{
  Text, codes, List, [], ◌∷◌, Option, some, none, Result, ok, err, eq_text, if◌then◌else◌,
}
use transferred.Core.Error.{lit, text}
use transferred.Files.Paths.{FilePath}
use transferred.Files.Source.{GlobOrPaths, glob, paths}
use transferred.Files.Parquet.{Compression, zstd, snappy, uncompressed}
use transferred.Py.Error.{PyErr, value_error}

-- `PathArg`: one path comes as the text of it.
pub data PathArg : Type 0 where
  many : List FilePath → PathArg
  one : Text → PathArg

unfoldable pub inputs_of : PathArg → GlobOrPaths
inputs_of (many some_paths) = paths some_paths
inputs_of (one single) = glob single

unfoldable pub parse_compression : Option Text → Result Compression PyErr
parse_compression none = ok uncompressed
parse_compression (some name) =
    if eq_text name (codes "zstd")
    then ok zstd
    else if eq_text name (codes "snappy")
    then ok snappy
    else err (record {
      class = value_error;
      message =
          lit "unknown compression: "
          ∷ text name
          ∷ lit ". expected one of: zstd, snappy, None"
          ∷ [];
    })
