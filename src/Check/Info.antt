-- ===== src/Check/Info.antt =====
-- Info blocks: their image in memory, their checksum, and `btt_info_verify`.
use utils_kernel_ndctl_ndctl.Prelude.{
  ℕ, Bool, true, false, not, ◌&&◌, List, [], ◌∷◌, ◌++◌, ◌==◌, if◌then◌else◌,
}
use utils_kernel_ndctl_ndctl.Util.Fletcher.{fletcher64}
use utils_kernel_ndctl_ndctl.Check.Defs.{Host, BttSb, Rc, ok, errno, enxio}

abbrev pub two_words : Host → ℕ → List ℕ
two_words host v = let (first, second) = host.split64 v in first ∷ second ∷ []

-- The 1024 words of a `struct btt_sb`.
unfoldable pub image : Host → BttSb → List ℕ
image host sb =
    sb.signature
    ++ (sb.uuid
        ++ (sb.parent_uuid
            ++ (sb.flags
                ∷ host.join16 sb.version_major sb.version_minor
                ∷ sb.external_lbasize
                ∷ sb.external_nlba
                ∷ sb.internal_lbasize
                ∷ sb.internal_nlba
                ∷ sb.nfree
                ∷ sb.infosize
                ∷ (two_words host sb.nextoff
                    ++ (two_words host sb.dataoff
                        ++ (two_words host sb.mapoff
                            ++ (two_words host sb.logoff
                                ++ (two_words host sb.info2off
                                    ++ (sb.padding ++ two_words host sb.checksum)))))))))

-- `memcmp(...) == 0`
unfoldable pub same_words : List ℕ → List ℕ → Bool
same_words [] [] = true
same_words (x ∷ xs) (y ∷ ys) = x == y && same_words xs ys
same_words _ _ = false

-- On a mismatch the checksum of the buffer stays zeroed.
unfoldable pub verify_infoblock_checksum : Host → BttSb → Bool × BttSb
verify_infoblock_checksum host sb =
    let zeroed = record sb { checksum = 0 } in
    let sum = fletcher64 host.le32_to_cpu (image host zeroed) true in
    if sum == sb.checksum then (true, sb) else (false, zeroed)

-- `uuid_is_null`
unfoldable pub uuid_is_null : List ℕ → Bool
uuid_is_null [] = true
uuid_is_null (w ∷ ws) = w == 0 && uuid_is_null ws

-- `signature` holds the words of `BTT_SIG`. The block that comes back is the buffer after the call.
unfoldable pub btt_info_verify : Host → List ℕ → List ℕ → BttSb → Rc × BttSb
btt_info_verify host signature parent_uuid sb =
    let (valid, sb') = verify_infoblock_checksum host sb in
    if not (same_words sb.signature signature)
    then (errno enxio, sb)
    else if not (uuid_is_null sb.parent_uuid) && not (same_words parent_uuid sb.parent_uuid)
    then (errno enxio, sb)
    else if not valid
    then (errno enxio, sb')
    else (ok, sb')
