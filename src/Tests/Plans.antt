-- ===== src/Tests/Plans.antt =====
-- The chaincode's plans at concrete inputs.
use capstone_2025_team.Base.{refl, true, [], ◌∷◌, arith, codes, inl, inr}
use capstone_2025_team.Memory.{of_list}
use capstone_2025_team.Platform.Strict.{strict}
use capstone_2025_team.Message.{InvocationRequest}
use capstone_2025_team.Proxy.{Board}
use capstone_2025_team.Proxy.Context.{TeeCtx}
use capstone_2025_team.Proxy.Server.{ok}
use capstone_2025_team.Chaincode.Text.Stands.{Stands}
use capstone_2025_team.Chaincode.Follows.{Placed, Image}
use capstone_2025_team.System.{board}
use capstone_2025_team.System.Exchange.Dialogue.{Ledger}
use capstone_2025_team.System.Exchange.Plans.{device_of}
use capstone_2025_team.System.Exchange.Run.{opened}
use capstone_2025_team.System.Exchange.Whole.{Works}
use capstone_2025_team.Tests.Layouts.{layout, image, host}

pub layout-Placed : Placed layout 524288
layout-Placed = record {
  linked = λ c. refl;
  small = omega arith;
  texts = 16;
  texts_size = 30;
  exist_in = omega arith;
  ok_in = omega arith;
  empty_in = omega arith;
  notfound_in = omega arith;
  error_in = omega arith;
  some_texts = omega arith;
  function_inside = omega arith;
  arg1_inside = omega arith;
  person_inside = omega arith;
  cur_val_inside = omega arith;
  tmp_inside = omega arith;
  function_texts = inr (omega arith);
  arg1_texts = inr (omega arith);
  person_texts = inr (omega arith);
  cur_val_texts = inr (omega arith);
  tmp_texts = inr (omega arith);
  person_arg1 = inr (omega arith);
  person_cur_val = inl (omega arith);
  arg1_cur_val = inl (omega arith);
  tmp_person = inr (omega arith);
}

pub image-Image : Image layout 524288 (of_list 524288 image)
unfolding of_list
image-Image = record {
  sized = refl;
  exist = (refl, omega arith, omega arith);
  ok = (refl, omega arith, omega arith);
  empty = (refl, omega arith, omega arith);
  notfound = (refl, omega arith, omega arith);
  error = (refl, omega arith, omega arith);
}

pub unnamed : Stands (of_list 524288 image) layout.g_function 64 []
unfolding of_list
unnamed = (refl, omega arith, omega arith)

pub works : Works layout host image 524288 (of_list 524288 image)
works = record {
  placed = layout-Placed;
  image = image-Image;
  unnamed = unnamed;
  loads = refl;
  room = λ n. refl;
  buffers = λ n. refl;
  makes_context = refl;
  opens_session = refl;
}

abbrev pub target : Board
target = board strict layout host

abbrev pub service : TeeCtx target
service = record {
  device = device_of strict layout host (opened strict layout 0);
  output_buffer = true;
  output_buffer_size = 5120;
  benchmark_buffer = true;
  benchmark_buffer_size = 5120;
}

abbrev create_kim : InvocationRequest
create_kim = record {
  chaincode_uuid = [];
  function_name = codes "create";
  arguments = codes "kim" ∷ codes "5" ∷ [];
  aot_file = codes "c.aot";
}

abbrev pub nothing_stored : Ledger
nothing_stored key = []
