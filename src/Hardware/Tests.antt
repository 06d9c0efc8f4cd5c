-- ===== src/Hardware/Tests.antt =====
-- Machines and their settings (app/services/hardware.py).
use frass_f.Base.{true, false, [], ◌∷◌}
use frass_f.Hardware.{Machine, HardwareProfile, open_vino, cpu, nvidia_cuda}

abbrev laptop : Machine
laptop = record {
  cpu_cores = 8;
  ram_gb = 1600;
  is_apple_arm = false;
  is_linux = true;
  has_onnxruntime = true;
  available = cpu ∷ open_vino ∷ [];
  nvidia_vram_gb = 0;
  has_opt_rocm = true;
}

abbrev server : Machine
server = record laptop { available = cpu ∷ [] }

abbrev gpu_box : HardwareProfile
gpu_box = record { cpu_cores = 1; ram_gb = 100; gpu_type = nvidia_cuda; gpu_vram_gb = 800 }
