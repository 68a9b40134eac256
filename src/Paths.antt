-- ===== src/Paths.antt =====
-- utils/helper.py: `path_normalize`, over a model of pathlib on a POSIX host; and
-- vcs/services/mirror_path.py below.
pub mod Pure
pub mod Normalize
pub mod Under
pub mod Mirror
