-- ===== src/StatsProgram/PinnedPath.antt =====
-- The file that loader/xdp_stats.c opens, and the one that loader/xdp_loader.c looks for.
use syncookie_xdp.Prelude.{ℕ, zero, suc, ◌≡◌, refl, ap, List, [], ◌∷◌, ◌++◌}
use syncookie_xdp.Prelude.Int.{ℤ}
use syncookie_xdp.Attach.{Libbpf}
use syncookie_xdp.Attach.MapInfo.{BpfMapInfo}
use syncookie_xdp.Loader.{
  LibbpfObjects, snprintf, path_max, pin_basedir, map_name, pin_at, pin_maps_in_bpf_object,
}
use syncookie_xdp.StatsProgram.{stats_map_fd, open_bpf_map_file}

-- A text that was cut by snprintf, in a longer text that is cut at the same length.
snprintf-again : (n : ℕ) (s t : List ℕ) → snprintf n (snprintf n s ++ t) ≡ snprintf n (s ++ t)
unfolding snprintf
snprintf-again zero s t = refl
snprintf-again (suc zero) s t = refl
snprintf-again (suc (suc n)) [] t = refl
snprintf-again (suc (suc n)) (b ∷ s) t = ap (◌∷◌ b) (snprintf-again (suc n) s t)

-- The directory of a device, and the map in it.
abbrev pub pin_dir : List ℕ → List ℕ
pin_dir device = pin_basedir ++ (b'/' ∷ device)

abbrev pub pinned_path : List ℕ → List ℕ
pinned_path device = pin_basedir ++ (b'/' ∷ (device ++ (b'/' ∷ map_name)))

module _ {ℓ} {K : Type ℓ} (lib : Libbpf K) (objects : LibbpfObjects K) (bpf_obj_get : List ℕ → ℤ)
    (get_info : ℤ → BpfMapInfo → ℤ × BpfMapInfo) where
  -- For every name of a device, also one that does not fit into a path, the statistics program
  -- opens the file whose presence decides in the loader whether maps are unpinned first: it makes the
  -- name in two steps, the loader in one.
  pub stats_map_fd-pin_maps_in_bpf_object :
      (device : List ℕ) (obj : ℕ) (k : K)
      → (stats_map_fd bpf_obj_get get_info device
          ≡ bpf_obj_get (snprintf path_max (pinned_path device)))
        × (pin_maps_in_bpf_object lib objects obj device k
            ≡ pin_at lib objects obj
                (snprintf path_max (pin_dir device))
                (snprintf path_max (pinned_path device))
                k)
  unfolding stats_map_fd open_bpf_map_file pin_maps_in_bpf_object
  stats_map_fd-pin_maps_in_bpf_object device obj k =
      (ap bpf_obj_get (snprintf-again path_max (pin_dir device) (b'/' ∷ map_name)), refl)
