-- ===== src/Tests/Data.antt =====
-- Points, views, lines and files: the theorems at concrete values.
use blue_workspace_build.Base.{◌+◌, ◌*◌, ◌≤◌, ◌≡◌, refl, true, some, List, [], ◌∷◌, arith, length}
use blue_workspace_build.Base.Map
use blue_workspace_build.Tests.Values.{whole, point, three_points, later_points, loss, new_file}
use blue_workspace_build.File.{lower_bound, upper_bound, append_points, get_data, make_file, File}
use blue_workspace_build.Line.{GraphLine, get_line_data, add_line_data, LineType}
use blue_workspace_build.File.Invariant.{IsFile}
use blue_workspace_build.Line.Merge.{IsAscending}
use blue_workspace_build.Concept.Gather.{Gathered, gather_element-Gathered}
use blue_workspace_build.Concept.{ScalarPoint, DataMode}
use blue_workspace_build.Concept.View.{DataView, gather_element, make_view, get_elements}
use blue_workspace_build.Line.Sample.{sample_process, point_count, sample_process_bound}
use blue_workspace_build.Line.Merge.{get_line_data-IsAscending}
use blue_workspace_build.File.Boundary.{between, read_views}
use blue_workspace_build.File.Invariant.Update.{points_of, update_data-IsFile}
use blue_workspace_build.File.Invariant.Query.{get_data-between}

gather_element-Gathered_example :
    Gathered three_points 0 3 [] 2 (gather_element 2 (make_view three_points 0 3 []))
gather_element-Gathered_example =
    gather_element-Gathered three_points 0 3 [] 2 (omega arith) (omega arith) (omega arith)

abbrev raw_line : GraphLine whole
raw_line = record {
  line_type = LineType.normal;
  view = true;
  src_data = [];
  data_view = make_view three_points 0 3 [] ∷ make_view later_points 0 2 [] ∷ [];
}

sample_process_bound_example :
    (out : GraphLine whole) × (sample_process raw_line ≡ some out)
    × (point_count out.data_view ≤ 20001 + 2 * length raw_line.data_view)
unfolding make_view blue_workspace_build.Line.Sample.span
sample_process_bound_example =
    sample_process_bound raw_line
      ((refl, omega arith, omega arith), ((refl, omega arith, omega arith), tt)) (omega arith)

three_ascend : IsAscending three_points
three_ascend = (omega arith, (omega arith, (omega arith, tt)))

later_ascend : IsAscending later_points
later_ascend = (omega arith, (omega arith, tt))

get_line_data-IsAscending_example :
    (ps : List (ScalarPoint whole)) × (after : GraphLine whole) × (get_line_data raw_line
      ≡ some (ps, after))
    × IsAscending ps
    × (get_line_data after ≡ some ([], after))
unfolding get_elements make_view
get_line_data-IsAscending_example =
    get_line_data-IsAscending raw_line
      ((three_points, refl, three_ascend), ((later_points, refl, later_ascend), tt)) tt

new_file-IsFile : IsFile new_file
unfolding make_file Map.get_or
new_file-IsFile tag = refl

update_data-IsFile_example :
    IsFile (append_points loss three_points new_file)
    × (points_of loss (append_points loss three_points new_file) ≡ three_points)
unfolding Map.get_or make_file blue_workspace_build.File.update_data
update_data-IsFile_example =
    update_data-IsFile loss (point 2 7) (point 5 4 ∷ point 9 6 ∷ []) new_file
      (append_points loss three_points new_file) new_file-IsFile three_ascend (omega arith) refl

abbrev pub loaded_file : File whole
loaded_file = append_points loss three_points new_file

pub loaded_file-IsFile : IsFile loaded_file
unfolding Map.get_or make_file blue_workspace_build.File.update_data
loaded_file-IsFile =
    (update_data-IsFile loss (point 2 7) (point 5 4 ∷ point 9 6 ∷ []) new_file loaded_file
      new_file-IsFile three_ascend (omega arith) refl).0

get_data-between_example :
    (vs : List (DataView whole)) × (get_data loss 3 20 DataMode.normal
        (append_points loss three_points new_file)
      ≡ some vs)
    × (read_views vs ≡ some (between 3 20 three_points))
unfolding Map.get append_points Map.put make_file Map.get_or
get_data-between_example =
    get_data-between (append_points loss three_points new_file) loss (point 2 7)
      (point 5 4 ∷ point 9 6 ∷ []) 3 20 loaded_file-IsFile refl (omega arith)
