-- ===== src/Directory/Batch/Tests.antt =====
-- The sample text of the dialog for many users.
use ha_cluster.Base.{
  All, includes, is_space, keep, refl, size, trim, trim_end, trim_start, ◌+◌, ◌≡◌,
}
use ha_cluster.Directory.Batch.{
  has_error, looks_like_password, parse_batch_input, parse_user, parts_of, sample_text, split_lines,
  split_parts, valid_users,
}
use ha_cluster.Directory.Batch.Laws.{IsUser, parse_batch_input-counts}

parse_batch_input-counts_example :
    let (users, invalid) = parse_batch_input sample_text in
    (size (valid_users sample_text) + invalid ≡ size users)
    × (size (keep has_error users) ≡ invalid)
    × All IsUser (valid_users sample_text)
parse_batch_input-counts_example = parse_batch_input-counts sample_text

sample_parsed : (size (valid_users sample_text) ≡ 3) × ((parse_batch_input sample_text).1 ≡ 0)
unfolding valid_users parse_batch_input split_lines parse_user parts_of looks_like_password includes
    trim trim_start trim_end is_space split_parts
sample_parsed = (refl, refl)
